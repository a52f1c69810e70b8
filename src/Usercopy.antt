-- ===== src/Usercopy.antt =====
-- kernel/usercopy.c: access to the memory of user space. A user pointer is its address, so that 0 is
-- the null pointer; the kernel's buffers are lists, whose tests for null are left out. `cr3` is the
-- address space that `vmm_current_address_space` returns, and `phys_to_virt` is the identity.
-- Each round of a loop gets on by a byte at least, so the length is enough fuel.
pub mod Range
pub mod Reading
pub mod Texts
mod Tests
use tang_ping_os.Prelude.{
  ℕ, zero, suc, ◌+◌, ◌-◌, ◌%◌, Option, none, some, Bool, true, false, not, ◌&&◌, ◌||◌, List, Memory,
  store_byte, get_or, set, ltb, ◌==◌, if◌then◌else◌, add64, sub64,
}
use tang_ping_os.Pmm.{page_size}
use tang_ping_os.Vmm.{translate_user_addr}

unfoldable pub min_u64 : ℕ → ℕ → ℕ
min_u64 a b = if ltb a b then a else b

unfoldable pub range_wraps : ℕ → ℕ → Bool
range_wraps start len = not (len == 0) && ltb (sub64 (add64 start len) 1) start

-- How far a round gets from `addr`, when `left` bytes are left: to the end of the page at most.
unfoldable pub step_len : ℕ → ℕ → ℕ
step_len addr left = min_u64 (page_size - addr % page_size) left

module _ (m : Memory) (cr3 base len : ℕ) where
  -- The loop of `usercopy_validate_range`.
  unfoldable pub validate_from : ℕ → Bool → ℕ → Bool
  validate_from zero write checked = true
  validate_from (suc fuel) write checked =
      let addr = add64 base checked in
      let next = validate_from fuel write (checked + step_len addr (len - checked)) in
      if ltb checked len
      then elim (translate_user_addr m cr3 addr write) [ none ↦ false | some phys ↦ next ]
      else true

  -- Whether the range may be accessed.
  unfoldable pub validate_range : Bool → Bool
  validate_range write =
      if len == 0 then true else if range_wraps base len then false else validate_from len write 0

-- for (i = 0; i < n; i++) out[at + i] = in[i]
pub copy_in : ℕ → List ℕ → ℕ → Memory → ℕ → List ℕ
copy_in zero out at m phys = out
copy_in (suc n) out at m phys = copy_in n (set out at (m phys)) (at + 1) m (phys + 1)

-- for (i = 0; i < n; i++) out[i] = in[from + i]
pub copy_out : ℕ → Memory → ℕ → List ℕ → ℕ → Memory
copy_out zero m phys src from = m
copy_out (suc n) m phys src from =
    copy_out n (store_byte m phys (get_or src from 0)) (phys + 1) src (from + 1)

module _ (m : Memory) (cr3 base len : ℕ) where
  -- The loop of `copy_from_user`, and whether the bytes were copied.
  pub copy_from : ℕ → List ℕ → ℕ → Bool × List ℕ
  copy_from zero out copied = (true, out)
  copy_from (suc fuel) out copied =
      let addr = add64 base copied in
      let n = step_len addr (len - copied) in
      let next = λ (phys : ℕ). copy_from fuel (copy_in n out copied m phys) (copied + n) in
      if ltb copied len
      then elim (translate_user_addr m cr3 addr false) [
        | none ↦ (false, out)
        | some phys ↦ next phys
      ]
      else (true, out)

  pub copy_from_user : List ℕ → Bool × List ℕ
  copy_from_user dst =
      if len == 0
      then (true, dst)
      else if base == 0 || range_wraps base len
      then (false, dst)
      else copy_from len dst 0

module _ (cr3 base len : ℕ) (src : List ℕ) where
  -- The loop of `copy_to_user`. The tables that translate an address are those of the moment.
  pub copy_to : ℕ → Memory → ℕ → Bool × Memory
  copy_to zero m copied = (true, m)
  copy_to (suc fuel) m copied =
      let addr = add64 base copied in
      let n = step_len addr (len - copied) in
      let next = λ (phys : ℕ). copy_to fuel (copy_out n m phys src copied) (copied + n) in
      if ltb copied len
      then elim (translate_user_addr m cr3 addr true) [ none ↦ (false, m) | some phys ↦ next phys ]
      else (true, m)

  pub copy_to_user : Memory → Bool × Memory
  copy_to_user m =
      if len == 0
      then (true, m)
      else if base == 0 || range_wraps base len
      then (false, m)
      else copy_to len m 0

module _ (m : Memory) (cr3 base : ℕ) where
  -- The loop of `copy_string_from_user` for the `left` characters that the buffer still takes.
  unfoldable pub copy_string : ℕ → List ℕ → ℕ → Bool × List ℕ
  copy_string zero dst i = (false, set dst (i - 1) 0)
  copy_string (suc left) dst i =
      let next = λ (c : ℕ). copy_string left (set dst i c) (i + 1) in
      elim (translate_user_addr m cr3 (add64 base i) false) [
        | none ↦ (false, dst)
        | some phys ↦ if m phys == 0 then (true, set dst i 0) else next (m phys)
      ]

  unfoldable pub copy_string_from_user : List ℕ → ℕ → Bool × List ℕ
  copy_string_from_user dst max_len =
      if base == 0 || max_len == 0 then (false, dst) else copy_string max_len dst 0
