-- ===== src/Vmm/Entries.antt =====
-- The bits of the entries that mapping a page writes.
use tang_ping_os.Prelude.{
  ℕ, ◌+◌, ◌-◌, ◌*◌, ◌%◌, ◌^◌, ◌<◌, ◌≡◌, refl, ap, ◌∙◌, inl, inr, true, false, ◌&&◌, has_bit,
  clear_bit, or64, or64-bit0, or64-bit1, or64-bit2, or64-bit3, or64-bit4, or64-page, if◌then◌else◌,
  arith, Bool-cases,
}
use tang_ping_os.Vmm.{
  present, writable, user, huge, pwt, pcd, addr_of, combining_flags, uncached_flags, entry_flags,
  page_entry, write_combining, uncached,
}

-- The entry of a new table for user space.
pub or64-table :
    (p : ℕ)
    → p < 2 ^ 40
    → or64 (or64 (or64 (p * 4096) (2 ^ present)) (2 ^ writable)) (2 ^ user) ≡ p * 4096 + 7
or64-table p h =
    let one : or64 (p * 4096) 1 ≡ p * 4096 + 1 =
      or64-bit0 (p * 4096) (omega arith) ∙ ground arith in
    let two : or64 (p * 4096 + 1) 2 ≡ p * 4096 + 3 =
      or64-bit1 (p * 4096 + 1) (omega arith) ∙ ground arith in
    rw (one, two) (or64-bit2 (p * 4096 + 3) (omega arith) ∙ ground arith)

-- An entry that the processor follows, for writing too.
pub record IsLink (e : ℕ) : Type 0 where
  pub is_present : has_bit e present ≡ true
  pub is_user : has_bit e user ≡ true
  pub is_writable : has_bit e writable ≡ true
  pub not_huge : has_bit e huge ≡ false

pub table-IsLink :
    (p : ℕ) → p < 2 ^ 40 → IsLink (p * 4096 + 7) × (addr_of (p * 4096 + 7) ≡ p * 4096)
table-IsLink p h = (
  record {
    is_present = ground arith;
    is_user = ground arith;
    is_writable = ground arith;
    not_huge = ground arith;
  },
  omega arith,
)

-- An entry that was there is opened for user space.
pub or64-IsLink :
    (e : ℕ)
    → e < 2 ^ 64
    → has_bit e present ≡ true
    → has_bit e writable ≡ true
    → has_bit e huge ≡ false
    → IsLink (or64 e (2 ^ user))
      × (addr_of (or64 e (2 ^ user)) ≡ addr_of e)
      × (or64 e (2 ^ user) < 2 ^ 64)
or64-IsLink e h p w g =
    let opened = or64-bit2 e h in
    (
      record {
        is_present = rw opened (ground arith);
        is_user = rw opened (ground arith);
        is_writable = rw opened (ground arith);
        not_huge = rw opened (ground arith);
      },
      rw opened (ground arith),
      rw opened (ground arith),
    )

-- What the flags of a mapping may be: no bit of the address.
abbrev pub IsFlags : ℕ → Type 0
IsFlags f = (f < 2 ^ 64) × (f % 2 ^ 52 < 4096)

-- The flags that are left: that of write combining wins over that of no caching.
abbrev pub cache_flags : ℕ → ℕ
cache_flags f = if has_bit f 3 && has_bit f 4 then f - 16 else f

combining_flags_lem : (f : ℕ) → f < 2 ^ 64 → combining_flags f ≡ cache_flags f
unfolding combining_flags
combining_flags_lem f h = elim (Bool-cases (has_bit f 3)) [
  | inr plain ↦ rw plain refl
  | inl combining ↦
      let rest : ℕ = if has_bit f 4 then f - 24 else f - 8 in
      let cleared : clear_bit (clear_bit f write_combining) pcd ≡ rest = ground arith in
      let off : has_bit rest 3 ≡ false = ground arith in
      let set : or64 rest 8 ≡ rest + 8 = or64-bit3 rest (ground arith) ∙ rw off refl in
      let back : rest + 8 ≡ (if true && has_bit f 4 then f - 16 else f) = ground arith in
      rw combining (ap (λ (x : ℕ). or64 x 8) (ground arith) ∙ set ∙ back)
]

uncached_flags_lem :
    (g : ℕ) → g < 2 ^ 64 → (has_bit g 3 && has_bit g 4) ≡ false → uncached_flags g ≡ g
unfolding uncached_flags
uncached_flags_lem g h e = elim (Bool-cases (has_bit g 4)) [
  | inr cached ↦ rw cached refl
  | inl not_cached ↦
      let cleared : clear_bit g uncached ≡ g - 16 = ground arith in
      let set : or64 (g - 16) 16 ≡ g = or64-bit4 (g - 16) (ground arith) ∙ ground arith in
      let off : has_bit g 3 ≡ false = ground arith in
      rw not_cached (ap (λ (x : ℕ). clear_bit x pwt) set ∙ rw off refl)
]

-- An entry as the processor reads it: a page at `phys` with the rights of `f`.
pub record IsPage (e phys f : ℕ) : Type 0 where
  pub is_present : has_bit e present ≡ true
  pub same_user : has_bit e user ≡ has_bit f user
  pub same_writable : has_bit e writable ≡ has_bit f writable
  pub address : addr_of e ≡ phys
  pub is_word : e < 2 ^ 64

marked_lem :
    (p g : ℕ)
    → p < 2 ^ 40
    → IsFlags g
    → IsPage (or64 (or64 (p * 4096) g) (2 ^ present)) (p * 4096) g
marked_lem p g h k =
    let e : ℕ = if has_bit g 0 then p * 4096 + g else p * 4096 + g + 1 in
    let lt : p * 4096 + g < 2 ^ 64 = omega (arith, k.0, k.1) in
    let same : has_bit (p * 4096 + g) 0 ≡ has_bit g 0 = ground arith in
    let all : or64 (or64 (p * 4096) g) (2 ^ present) ≡ e =
      rw (or64-page p g h k.0 k.1) (or64-bit0 (p * 4096 + g) lt ∙ rw same refl) in
    rw all (record {
      is_present = ground arith;
      same_user = ground arith;
      same_writable = ground arith;
      address = ground (arith, k.0, k.1);
      is_word = ground (arith, k.0, k.1);
    })

cache_flags-IsFlags : (f : ℕ) → IsFlags f → IsFlags (cache_flags f)
cache_flags-IsFlags f k = (ground (arith, k.0), ground (arith, k.0, k.1))

pub page_entry_lem :
    (p f : ℕ) → p < 2 ^ 40 → IsFlags f → IsPage (page_entry (p * 4096) f) (p * 4096) f
page_entry_lem p f h k =
    let whole : addr_of (p * 4096) ≡ p * 4096 = omega arith in
    let small = cache_flags-IsFlags f k in
    let flags : entry_flags f ≡ cache_flags f =
      rw (combining_flags_lem f k.0) (uncached_flags_lem (cache_flags f) small.0 (ground arith)) in
    let e = marked_lem p (cache_flags f) h small in
    rw (whole, flags)
      (record {
        is_present = e.is_present;
        same_user = e.same_user ∙ ground arith;
        same_writable = e.same_writable ∙ ground arith;
        address = e.address;
        is_word = e.is_word;
      })
