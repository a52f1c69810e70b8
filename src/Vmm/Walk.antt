-- ===== src/Vmm/Walk.antt =====
-- The translation of user addresses, page by page.
use mathlib.Core.Option
use tang_ping_os.Prelude.{
  ℕ, ◌+◌, ◌/◌, ◌%◌, ◌^◌, ◌<◌, ◌≡◌, refl, ap, ◌∙◌, inl, inr, Option, none, some, Bool, true, false,
  List, [], ◌∷◌, Memory, leb, if◌then◌else◌, arith, Bool-cases, Option-cases,
}
use tang_ping_os.Pmm.{page_size}
use tang_ping_os.Vmm.{addr_of, read_entry, walk_user, indices, user_virt_max, translate_user_addr}

-- An address only counts below its page after the last level.
walk_user-offset :
    (m : Memory) (write : Bool) (virt : ℕ) (is : List ℕ) (table : ℕ)
    → walk_user m write virt is table
      ≡ Option.map (λ (p : ℕ). p + virt % page_size) (walk_user m write 0 is table)
unfolding walk_user
walk_user-offset m write virt [] table = refl
walk_user-offset m write virt (index ∷ rest) table =
    ground (arith, walk_user-offset m write virt rest (addr_of (read_entry m table index)))

-- The indices by the number of the page.
abbrev pub page_indices : ℕ → List ℕ
page_indices page = page / 2 ^ 27 % 512 ∷ page / 2 ^ 18 % 512 ∷ page / 2 ^ 9 % 512 ∷ page % 512 ∷ []

pub indices-page : (a : ℕ) → indices a ≡ page_indices (a / page_size)
indices-page a = cong4 (omega arith) (omega arith) (omega arith) refl
  where
    cong4 :
        {w x y z w' x' y' z' : ℕ}
        → w ≡ w'
        → x ≡ x'
        → y ≡ y'
        → z ≡ z'
        → (w ∷ x ∷ y ∷ z ∷ []) ≡ (w' ∷ x' ∷ y' ∷ z' ∷ [])
    cong4 e f g h = cc

-- The start of the physical page that a page of user space is mapped to.
abbrev pub translate_page : Memory → ℕ → ℕ → Bool → Option ℕ
translate_page m cr3 page write =
    if leb (2 ^ 35) page then none else walk_user m write 0 (page_indices page) (addr_of cr3)

-- A user address is translated by its page, and then by its offset.
pub translate_user_addr-page :
    (m : Memory) (cr3 a : ℕ) (write : Bool)
    → translate_user_addr m cr3 a write
      ≡ Option.map (λ (p : ℕ). p + a % page_size) (translate_page m cr3 (a / page_size) write)
unfolding translate_user_addr
translate_user_addr-page m cr3 a write = elim (Bool-cases (leb user_virt_max a)) [
  | inl high ↦
      let high' : leb (2 ^ 35) (a / page_size) ≡ true = ground arith in rw (high, high') refl
  | inr low ↦
      let low' : leb (2 ^ 35) (a / page_size) ≡ false = ground arith in
      rw (low, low', indices-page a)
        (walk_user-offset m write a (page_indices (a / page_size)) (addr_of cr3))
]

-- Within a page the physical address follows the virtual one.
pub translate_user_addr-add :
    (m : Memory) (cr3 a i phys : ℕ) (write : Bool)
    → a % page_size + i < page_size
    → translate_user_addr m cr3 a write ≡ some phys
    → translate_user_addr m cr3 (a + i) write ≡ some (phys + i)
translate_user_addr-add m cr3 a i phys write h e =
    let here = translate_user_addr-page m cr3 a write in
    let there = translate_user_addr-page m cr3 (a + i) write in
    let same : (a + i) / page_size ≡ a / page_size = omega arith in
    let offset : (a + i) % page_size ≡ a % page_size + i = omega arith in
    elim (Option-cases (translate_page m cr3 (a / page_size) write)) [
      | inl none_here ↦ absurd (ground arith)
      | inr (p, found) ↦
          let at : p + a % page_size ≡ phys = ground arith in
          there ∙ rw (same, found, offset) (ap some (omega arith))
    ]

pub translate_user_addr-lt :
    (m : Memory) (cr3 a phys : ℕ) (write : Bool)
    → translate_user_addr m cr3 a write ≡ some phys
    → a < user_virt_max
unfolding translate_user_addr
translate_user_addr-lt m cr3 a phys write e = ground arith
