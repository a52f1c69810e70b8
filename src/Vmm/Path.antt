-- ===== src/Vmm/Path.antt =====
-- The tables that a walk meets: what a memory must hold of them, and how many are missing.
use tang_ping_os.Prelude.{
  ℕ, ◌+◌, ◌*◌, ◌/◌, ◌%◌, ◌^◌, ◌<◌, ◌≡◌, refl, ap, ◌∙◌, inl, inr, Bool, true, false, ◌||◌, List, [],
  ◌∷◌, Memory, read64, write64, read_le, read_le-ext, write_le-outside, has_bit, ◌==◌,
  if◌then◌else◌, arith, Bool-cases, suc, length, ◌≤◌,
}
use tang_ping_os.Pmm.{Pmm, page_size, test_bit}
use tang_ping_os.Vmm.{present, writable, huge, read_entry}

-- The page that an entry holds.
abbrev pub page_of : ℕ → ℕ
page_of e = e % 2 ^ 52 / page_size

abbrev pub Pages : Type 0
Pages = ℕ → Bool

abbrev pub with_page : ℕ → Pages → Pages
with_page p seen r = r == p || seen r

-- The tables that a walk finds from the page `p` on are pages in use, differ from each other and from
-- those seen before, and are linked by entries that are writable and not huge.
abbrev pub IsPath : Pmm → Pages → ℕ → List ℕ → Type 0
IsPath s seen p [] = (test_bit s.bitmap p ≡ true) × (seen p ≡ false)
IsPath s seen p (i ∷ is) =
    let e = read_entry s.memory (p * page_size) i in
    (test_bit s.bitmap p ≡ true)
    × (seen p ≡ false)
    × (has_bit e present ≡ true
        → (e < 2 ^ 64)
          × (has_bit e writable ≡ true)
          × (has_bit e huge ≡ false)
          × IsPath s (with_page p seen) (page_of e) is)

abbrev pub SeenUsed : Pmm → Pages → Type 0
SeenUsed s seen = (r : ℕ) → seen r ≡ true → test_bit s.bitmap r ≡ true

pub apart : (seen : Pages) (q p : ℕ) → seen q ≡ true → seen p ≡ false → (q == p) ≡ false
apart seen q p t f = elim (Bool-cases (q == p)) [
  | inr ne ↦ ne
  | inl same ↦ let at : q ≡ p = ground arith in absurd (ground (arith, ap seen at))
]

module _ (m : Memory) (p i v : ℕ) (small : i < 512) where
  pub write_entry-elsewhere :
      (a : ℕ) → (a / page_size == p) ≡ false → write64 m (p * page_size + 8 * i) v a ≡ m a
  write_entry-elsewhere a ne = write_le-outside 8 m (p * page_size + 8 * i) v a (ground arith)

pub read_entry-agree :
    (m m' : Memory) (p i : ℕ)
    → i < 512
    → ((a : ℕ) → a / page_size ≡ p → m' a ≡ m a)
    → read_entry m' (p * page_size) i ≡ read_entry m (p * page_size) i
read_entry-agree m m' p i small h =
    read_le-ext 8 m' m (p * page_size + 8 * i) (λ a l u. h a (omega arith))

pub read_zero : (at : ℕ) → read64 (λ a. 0) at ≡ 0
unfolding read_le
read_zero at = refl

abbrev pub AllSmall : List ℕ → Type 0
AllSmall [] = Unit
AllSmall (i ∷ is) = (i < 512) × AllSmall is

-- A path is the same in a memory that differs in the tables seen only.
pub IsPath-agree :
    (s s' : Pmm) (seen : Pages) (p : ℕ) (is : List ℕ)
    → AllSmall is
    → s'.bitmap ≡ s.bitmap
    → ((a : ℕ) → seen (a / page_size) ≡ false → s'.memory a ≡ s.memory a)
    → IsPath s seen p is
    → IsPath s' seen p is
IsPath-agree s s' seen p [] small same agree (u, n) = (rw same u, n)
IsPath-agree s s' seen p (i ∷ is) (si, small) same agree (u, n, next) =
    let e = read_entry-agree s.memory s'.memory p i si (λ a at. agree a (rw at n)) in
    (
      rw same u,
      n,
      λ found.
          let (w, r, g, path) = next (rw (← e) found) in
          (
            rw e w,
            rw e r,
            rw e g,
            rw e (
                IsPath-agree s s' (with_page p seen)
                  (page_of (read_entry s.memory (p * page_size) i)) is small same
                  (λ a h. agree a (ground arith)) path),
          ),
    )

-- How many of the tables on the way from the page `p` on are not there.
abbrev pub missing : Memory → ℕ → List ℕ → ℕ
missing m p [] = 0
missing m p (i ∷ is) =
    let e = read_entry m (p * page_size) i in
    let rest = missing m (page_of e) is in if has_bit e present then rest else suc (length is)

pub missing-le : (m : Memory) (p : ℕ) (is : List ℕ) → missing m p is ≤ length is
missing-le m p [] = omega arith
missing-le m p (i ∷ is) = ground (arith, missing-le m (page_of (read_entry m (p * page_size) i)) is)

pub missing-agree :
    (s s' : Pmm) (seen : Pages) (p : ℕ) (is : List ℕ)
    → AllSmall is
    → ((a : ℕ) → seen (a / page_size) ≡ false → s'.memory a ≡ s.memory a)
    → IsPath s seen p is
    → missing s'.memory p is ≡ missing s.memory p is
missing-agree s s' seen p [] small agree path = refl
missing-agree s s' seen p (i ∷ is) (si, small) agree (u, n, next) =
    let e = read_entry-agree s.memory s'.memory p i si (λ a at. agree a (rw at n)) in
    elim (Bool-cases (has_bit (read_entry s.memory (p * page_size) i) present)) [
      | inr absent ↦ rw (e, absent) refl
      | inl found ↦
          let (w, r, g, path) = next found in
          rw (e, found)
            (missing-agree s s' (with_page p seen) (page_of (read_entry s.memory (p * page_size) i))
              is small (λ a h. agree a (ground arith)) path)
    ]

pub IsPath-fresh :
    (s : Pmm) (seen : Pages) (q : ℕ) (is : List ℕ)
    → test_bit s.bitmap q ≡ true
    → seen q ≡ false
    → AllSmall is
    → ((a : ℕ) → a / page_size ≡ q → s.memory a ≡ 0)
    → IsPath s seen q is
IsPath-fresh s seen q [] u n small zeros = (u, n)
IsPath-fresh s seen q (i ∷ is) u n (si, small) zeros =
    let blank : read_entry s.memory (q * page_size) i ≡ 0 =
      read_entry-agree (λ a. 0) s.memory q i si zeros ∙ read_zero (q * page_size + 8 * i) in
    (u, n, λ found. absurd (ground arith))
