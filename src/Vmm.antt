-- ===== src/Vmm.antt =====
-- kernel/memory.c: the page tables. They lie in physical memory, where an entry is a word of eight
-- bytes; `phys_to_virt`, which adds the base of the direct map, is the identity. The cr3 register
-- is a field of the state, and the translation cache of the processor is left out. `none` is a
-- kernel panic in the functions whose result has a state, and the result -1 of a translation.
pub mod Walk
pub mod Entries
pub mod Path
pub mod Level
pub mod Mapping
mod Tests
use mathlib.Core.Option
use tang_ping_os.Prelude.{
  ℕ, zero, suc, ◌+◌, ◌-◌, ◌*◌, ◌/◌, ◌%◌, ◌^◌, Option, none, some, Bool, true, false, not, ◌&&◌,
  ◌||◌, List, [], ◌∷◌, Memory, read64, write64, or64, clear_bit, has_bit, length, ltb, leb, ◌==◌,
  if◌then◌else◌, add64,
}
use tang_ping_os.Pmm.{Pmm, page_size, alloc_page, free_page}
use tang_ping_os.Heap.{Mapper}

-- The positions of the bits `PTE_PRESENT`, `PTE_WRITABLE`, `PTE_USER`, `PTE_PWT`, `PTE_PCD`,
-- `PTE_HUGE`, and of `VMM_FLAG_WRITE_COMBINING` and `VMM_FLAG_UNCACHED`.
abbrev pub present : ℕ
present = 0

abbrev pub writable : ℕ
writable = 1

abbrev pub user : ℕ
user = 2

abbrev pub pwt : ℕ
pwt = 3

abbrev pub pcd : ℕ
pcd = 4

abbrev pub huge : ℕ
huge = 7

abbrev pub write_combining : ℕ
write_combining = 3

abbrev pub uncached : ℕ
uncached = 4

abbrev pub no_exec : ℕ
no_exec = 63

-- `USER_VIRT_MAX`
abbrev pub user_virt_max : ℕ
user_virt_max = 2 ^ 47

abbrev pub mmio_base : ℕ
mmio_base = 0xffffffffa0000000

abbrev pub mmio_size : ℕ
mmio_size = 16 * 1024 * 1024

abbrev pub table_entries : ℕ
table_entries = 512

-- `entry & PTE_ADDR_MASK`
abbrev pub addr_of : ℕ → ℕ
addr_of entry = entry % 2 ^ 52 / page_size * page_size

-- The indices of an address in the tables of the four levels.
abbrev pub pml4_index : ℕ → ℕ
pml4_index virt = virt / 2 ^ 39 % table_entries

abbrev pub pdpt_index : ℕ → ℕ
pdpt_index virt = virt / 2 ^ 30 % table_entries

abbrev pub pd_index : ℕ → ℕ
pd_index virt = virt / 2 ^ 21 % table_entries

abbrev pub pt_index : ℕ → ℕ
pt_index virt = virt / 2 ^ 12 % table_entries

-- The address of the entry of a table at an index.
abbrev pub entry_at : ℕ → ℕ → ℕ
entry_at table index = table + 8 * index

abbrev pub read_entry : Memory → ℕ → ℕ → ℕ
read_entry m table index = read64 m (entry_at table index)

abbrev pub write_entry : Pmm → ℕ → ℕ → ℕ → Pmm
write_entry s table index v = record s { memory = write64 s.memory (entry_at table index) v }

-- The end of `vmm_next_level`: the address that the entry holds.
abbrev pub linked : Pmm → ℕ → ℕ → ℕ × Pmm
linked s table index = (addr_of (read_entry s.memory table index), s)

-- `vmm_next_level`, whose callers all pass `create`: the address of the next table.
pub next_level : Pmm → ℕ → ℕ → ℕ → Option (ℕ × Pmm)
next_level s table index flags =
    let entry = read_entry s.memory table index in
    let created : Option (ℕ × Pmm) = elim (alloc_page s) [
      | none ↦ none
      | some (phys, s') ↦ some (
          linked
            (write_entry s' table index (
              or64 (or64 (or64 phys (2 ^ present)) (2 ^ writable))
                (if has_bit flags user then 2 ^ user else 0)))
            table index)
    ] in
    if not (has_bit entry present)
    then created
    else if has_bit flags user
    then some (linked (write_entry s table index (or64 entry (2 ^ user))) table index)
    else some (linked s table index)

-- The bits that the caller's flags stand for in an entry.
pub combining_flags : ℕ → ℕ
combining_flags flags =
    if has_bit flags write_combining
    then or64 (clear_bit (clear_bit flags write_combining) pcd) (2 ^ pwt)
    else flags

pub uncached_flags : ℕ → ℕ
uncached_flags flags =
    if has_bit flags uncached
    then clear_bit (or64 (clear_bit flags uncached) (2 ^ pcd)) pwt
    else flags

abbrev pub entry_flags : ℕ → ℕ
entry_flags flags = uncached_flags (combining_flags flags)

-- The entry of a page that is mapped.
abbrev pub page_entry : ℕ → ℕ → ℕ
page_entry phys flags = or64 (or64 (addr_of phys) (entry_flags flags)) (2 ^ present)

-- Whether a page was mapped, and the state after.
pub map_page_in : Pmm → ℕ → ℕ → ℕ → ℕ → Option (Bool × Pmm)
map_page_in s cr3 virt phys flags =
    let mapped : Option (Bool × Pmm) = elim (next_level s (addr_of cr3) (pml4_index virt) flags) [
      | none ↦ none
      | some (pdpt, s1) ↦ elim (next_level s1 pdpt (pdpt_index virt) flags) [
        | none ↦ none
        | some (pd, s2) ↦ elim (next_level s2 pd (pd_index virt) flags) [
          | none ↦ none
          | some (pt, s3) ↦ some (true, write_entry s3 pt (pt_index virt) (page_entry phys flags))
        ]
      ]
    ] in
    if not (virt % page_size == 0) || not (phys % page_size == 0) then some (false, s) else mapped

-- The state of the page tables: that of the page allocator with the memory, the register and the
-- static variables.
pub record Vmm : Type 0 where
  pub pmm : Pmm
  pub cr3 : ℕ
  pub kernel_cr3 : ℕ
  pub mmio_next : ℕ

pub map_page : Vmm → ℕ → ℕ → ℕ → Option (Bool × Vmm)
map_page v virt phys flags =
    Option.map (λ (r : Bool × Pmm). (r.0, record v { pmm = r.1 }))
      (map_page_in v.pmm v.cr3 virt phys flags)

-- A physical address is put together from two parts that have no bit in common.
pub translate_kernel_addr : Vmm → ℕ → Option ℕ
translate_kernel_addr v virt =
    let m = v.pmm.memory in
    let pml4e = read_entry m (addr_of v.cr3) (pml4_index virt) in
    let pdpte = read_entry m (addr_of pml4e) (pdpt_index virt) in
    let pde = read_entry m (addr_of pdpte) (pd_index virt) in
    let pte = read_entry m (addr_of pde) (pt_index virt) in
    if not (has_bit pml4e present)
    then none
    else if not (has_bit pdpte present)
    then none
    else if has_bit pdpte huge
    then some (pdpte % 2 ^ 52 / 2 ^ 30 * 2 ^ 30 + virt % 2 ^ 30)
    else if not (has_bit pde present)
    then none
    else if has_bit pde huge
    then some (pde % 2 ^ 52 / 2 ^ 21 * 2 ^ 21 + virt % 2 ^ 21)
    else if not (has_bit pte present)
    then none
    else some (addr_of pte + virt % page_size)

-- The rounds of the loop of `mmio_map_region` that are left: whether all pages were mapped.
pub mmio_map_from : ℕ → Vmm → ℕ → ℕ → Option (Bool × Vmm)
mmio_map_from zero v virt phys = some (true, v)
mmio_map_from (suc left) v virt phys =
    elim (map_page v virt phys (2 ^ writable + 2 ^ uncached + 2 ^ no_exec)) [
      | none ↦ none
      | some (false, v') ↦ some (false, v')
      | some (true, v') ↦ mmio_map_from left v' (add64 virt page_size) (add64 phys page_size)
    ]

-- The address that `mmio_map_region` returns, 0 for the null pointer.
pub mmio_map_region : Vmm → ℕ → ℕ → Option (ℕ × Vmm)
mmio_map_region v phys len =
    let offset = phys % page_size in
    let map_len = add64 len offset in
    let pages = add64 map_len (page_size - 1) / page_size in
    let end = add64 v.mmio_next (pages * page_size) in
    let mapped : Option (ℕ × Vmm) = elim (mmio_map_from pages v v.mmio_next (phys - offset)) [
      | none ↦ none
      | some (false, v') ↦ some (0, v')
      | some (true, v') ↦ some (
        add64 v.mmio_next offset,
        record v' { mmio_next = add64 v'.mmio_next (pages * page_size) },
      )
    ] in
    if len == 0
    then some (0, v)
    else if ltb (mmio_base + mmio_size) end
    then some (0, v)
    else mapped

-- The loop of `vmm_translate_user_addr` over the levels whose indices are left.
unfoldable pub walk_user : Memory → Bool → ℕ → List ℕ → ℕ → Option ℕ
walk_user m write virt [] table = none
walk_user m write virt (index ∷ rest) table =
    let entry = read_entry m table index in
    let deeper = walk_user m write virt rest (addr_of entry) in
    if not (has_bit entry present) || not (has_bit entry user)
    then none
    else if write && not (has_bit entry writable)
    then none
    else if length rest == 0
    then some (addr_of entry + virt % page_size)
    else if has_bit entry huge
    then none
    else deeper

abbrev pub indices : ℕ → List ℕ
indices virt = pml4_index virt ∷ pdpt_index virt ∷ pd_index virt ∷ pt_index virt ∷ []

unfoldable pub translate_user_addr : Memory → ℕ → ℕ → Bool → Option ℕ
translate_user_addr m cr3 virt write =
    if leb user_virt_max virt then none else walk_user m write virt (indices virt) (addr_of cr3)

-- The number of pages freed, and the state after. The loops go over the `left` entries from `i` on.
pub free_pt_from : ℕ → Pmm → ℕ → ℕ → ℕ → Option (ℕ × Pmm)
free_pt_from zero s pt i freed = some (freed, s)
free_pt_from (suc left) s pt i freed =
    let entry = read_entry s.memory pt i in
    let skipped = free_pt_from left s pt (i + 1) freed in
    let released : Option (ℕ × Pmm) = elim (free_page s (addr_of entry)) [
      | none ↦ none
      | some s' ↦ free_pt_from left (write_entry s' pt i 0) pt (i + 1) (freed + 1)
    ] in
    if not (has_bit entry present) then skipped else released

-- The end of the three functions: the table itself is freed.
abbrev pub free_table : ℕ → Option (ℕ × Pmm) → Option (ℕ × Pmm)
free_table table r = elim r [
  | none ↦ none
  | some (freed, s) ↦ Option.map (λ (s' : Pmm). (freed + 1, s')) (free_page s table)
]

pub free_pt : Pmm → ℕ → Option (ℕ × Pmm)
free_pt s pt = free_table (addr_of pt) (free_pt_from table_entries s (addr_of pt) 0 0)

pub free_pd_from : ℕ → Pmm → ℕ → ℕ → ℕ → Option (ℕ × Pmm)
free_pd_from zero s pd i freed = some (freed, s)
free_pd_from (suc left) s pd i freed =
    let entry = read_entry s.memory pd i in
    let skipped = free_pd_from left s pd (i + 1) freed in
    let released : Option (ℕ × Pmm) = elim (free_pt s (addr_of entry)) [
      | none ↦ none
      | some (n, s') ↦ free_pd_from left (write_entry s' pd i 0) pd (i + 1) (freed + n)
    ] in
    if not (has_bit entry present) then skipped else if has_bit entry huge then none else released

pub free_pd : Pmm → ℕ → Option (ℕ × Pmm)
free_pd s pd = free_table (addr_of pd) (free_pd_from table_entries s (addr_of pd) 0 0)

pub free_pdpt_from : ℕ → Pmm → ℕ → ℕ → ℕ → Option (ℕ × Pmm)
free_pdpt_from zero s pdpt i freed = some (freed, s)
free_pdpt_from (suc left) s pdpt i freed =
    let entry = read_entry s.memory pdpt i in
    let skipped = free_pdpt_from left s pdpt (i + 1) freed in
    let released : Option (ℕ × Pmm) = elim (free_pd s (addr_of entry)) [
      | none ↦ none
      | some (n, s') ↦ free_pdpt_from left (write_entry s' pdpt i 0) pdpt (i + 1) (freed + n)
    ] in
    if not (has_bit entry present) then skipped else if has_bit entry huge then none else released

pub free_pdpt : Pmm → ℕ → Option (ℕ × Pmm)
free_pdpt s pdpt = free_table (addr_of pdpt) (free_pdpt_from table_entries s (addr_of pdpt) 0 0)

-- The loop over the lower half of the entries, which are those of user space.
pub free_pml4_from : ℕ → Pmm → ℕ → ℕ → ℕ → Option (ℕ × Pmm)
free_pml4_from zero s pml4 i freed = some (freed, s)
free_pml4_from (suc left) s pml4 i freed =
    let entry = read_entry s.memory pml4 i in
    let skipped = free_pml4_from left s pml4 (i + 1) freed in
    let released : Option (ℕ × Pmm) = elim (free_pdpt s (addr_of entry)) [
      | none ↦ none
      | some (n, s') ↦ free_pml4_from left (write_entry s' pml4 i 0) pml4 (i + 1) (freed + n)
    ] in
    if not (has_bit entry present) then skipped else released

pub destroy_user_address_space : Vmm → ℕ → Option (ℕ × Vmm)
destroy_user_address_space v cr3 =
    let root = addr_of cr3 in
    if root == 0 || root == v.kernel_cr3 || root == addr_of v.cr3
    then some (0, v)
    else Option.map (λ (r : ℕ × Pmm). (r.0, record v { pmm = r.1 }))
        (free_table root (free_pml4_from 256 v.pmm root 0 0))

-- The loops of `vmm_create_address_space`.
pub clear_entries : ℕ → Pmm → ℕ → ℕ → Pmm
clear_entries zero s table i = s
clear_entries (suc left) s table i = clear_entries left (write_entry s table i 0) table (i + 1)

pub copy_entries : ℕ → Pmm → ℕ → ℕ → ℕ → Pmm
copy_entries zero s table from i = s
copy_entries (suc left) s table from i =
    copy_entries left (write_entry s table i (read_entry s.memory from i)) table from (i + 1)

pub create_address_space : Vmm → Option (ℕ × Vmm)
create_address_space v = elim (alloc_page v.pmm) [
  | none ↦ none
  | some (cr3, s) ↦
      some
        (cr3, record v { pmm = copy_entries 256 (clear_entries 256 s cr3 0) cr3 v.kernel_cr3 256 })
]

pub current_address_space : Vmm → ℕ
current_address_space v = addr_of v.cr3

pub kernel_address_space : Vmm → ℕ
kernel_address_space v = v.kernel_cr3

pub switch_address_space : Vmm → ℕ → Vmm
switch_address_space v cr3 =
    if addr_of v.cr3 == addr_of cr3 then v else record v { cr3 = addr_of cr3 }

-- The body of the loop of `heap_ensure_mapped`: the page tables as the heap uses them.
pub heap_mapper : Mapper Vmm
heap_mapper = record {
  map_new_page = λ v virt. elim (alloc_page v.pmm) [
    | none ↦ none
    | some (phys, s) ↦
        elim (map_page (record v { pmm = s }) virt phys (2 ^ writable + 2 ^ no_exec)) [
          | none ↦ none
          | some (false, v') ↦ none
          | some (true, v') ↦ some v'
        ]
  ];
}
