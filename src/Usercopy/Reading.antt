-- ===== src/Usercopy/Reading.antt =====
-- Copying bytes from user memory.
use mathlib.Core.Path.{ap₂}
use tang_ping_os.Prelude.{
  ℕ, zero, suc, ◌+◌, ◌-◌, ◌^◌, ◌≤◌, ◌<◌, ◌≡◌, refl, ap, ◌∙◌, ◌⊎◌, inl, inr, Option, none, some,
  Bool, true, false, not, ◌&&◌, ◌||◌, List, [], ◌∷◌, ◌++◌, Memory, list_ext, drop, length-append,
  length-drop, get_or-append, get_or-drop, length, length-set, get_or, get_or-set, set, ltb, leb,
  ◌==◌, if◌then◌else◌, arith, Bool-cases, Option-cases, ltb→lt, lt→ltb,
}
use tang_ping_os.Vmm.{translate_user_addr}
use tang_ping_os.Vmm.Walk.{translate_user_addr-add}
use tang_ping_os.Usercopy.{
  range_wraps, step_len, validate_from, validate_range, copy_in, copy_from, copy_from_user,
}
use tang_ping_os.Usercopy.Range.{step_len_lem, range_wraps_iff, no_wrap, validate_from_step}

length-copy_in :
    (n : ℕ) (out : List ℕ) (at : ℕ) (m : Memory) (phys : ℕ)
    → length (copy_in n out at m phys) ≡ length out
unfolding copy_in
length-copy_in zero out at m phys = refl
length-copy_in (suc n) out at m phys =
    length-copy_in n (set out at (m phys)) (at + 1) m (phys + 1) ∙ length-set out at (m phys)

get_or-copy_in :
    (n : ℕ) (out : List ℕ) (at : ℕ) (m : Memory) (phys i : ℕ)
    → at + n ≤ length out
    → get_or (copy_in n out at m phys) i 0
      ≡ (if leb at i && ltb i (at + n) then m (phys + (i - at)) else get_or out i 0)
unfolding copy_in
get_or-copy_in zero out at m phys i h = ground arith
get_or-copy_in (suc n) out at m phys i h = ground (
  arith,
  get_or-copy_in n (set out at (m phys)) (at + 1) m (phys + 1) i,
  length-set out at (m phys),
  get_or-set out at i (m phys) 0,
)

abbrev pub byte_at : Memory → Option ℕ → ℕ
byte_at m none = 0
byte_at m (some phys) = m phys

-- The byte that user space sees at an address.
abbrev pub user_byte : Memory → ℕ → ℕ → ℕ
user_byte m cr3 a = byte_at m (translate_user_addr m cr3 a false)

-- The bytes that it sees from an address on.
abbrev pub user_bytes : Memory → ℕ → ℕ → ℕ → List ℕ
user_bytes m cr3 a zero = []
user_bytes m cr3 a (suc n) = user_byte m cr3 a ∷ user_bytes m cr3 (a + 1) n

pub length-user_bytes : (m : Memory) (cr3 a n : ℕ) → length (user_bytes m cr3 a n) ≡ n
length-user_bytes m cr3 a zero = refl
length-user_bytes m cr3 a (suc n) = ap suc (length-user_bytes m cr3 (a + 1) n)

pub user_bytes-append :
    (m : Memory) (cr3 a n k : ℕ)
    → user_bytes m cr3 a n ++ user_bytes m cr3 (a + n) k ≡ user_bytes m cr3 a (n + k)
user_bytes-append m cr3 a zero k =
    let start : a + 0 ≡ a = omega arith in
    let size : 0 + k ≡ k = omega arith in rw (start, size) refl
user_bytes-append m cr3 a (suc n) k =
    let start : a + suc n ≡ a + 1 + n = omega arith in
    let size : suc n + k ≡ suc (n + k) = omega arith in
    rw (start, size)
      (ap (λ (r : List ℕ). user_byte m cr3 a ∷ r) (user_bytes-append m cr3 (a + 1) n k))

get_or-user_bytes :
    (m : Memory) (cr3 a n i : ℕ)
    → get_or (user_bytes m cr3 a n) i 0 ≡ (if ltb i n then user_byte m cr3 (a + i) else 0)
get_or-user_bytes m cr3 a zero i = ground arith
get_or-user_bytes m cr3 a (suc n) zero =
    let here : a ≡ a + 0 = omega arith in ground (arith, ap (user_byte m cr3) here)
get_or-user_bytes m cr3 a (suc n) (suc i) =
    let next : a + 1 + i ≡ a + suc i = omega arith in
    ground (arith, get_or-user_bytes m cr3 (a + 1) n i, ap (user_byte m cr3) next)

-- When `copy_from_user` is to succeed.
abbrev pub accepts : Memory → ℕ → ℕ → ℕ → Bool
accepts m cr3 base len = len == 0 || (not (base == 0) && validate_range m cr3 base len false)

module _ (m : Memory) (cr3 base len : ℕ) where
  module _ (fuel : ℕ) (out : List ℕ) (from : ℕ) (top : base + len ≤ 2 ^ 64) (lt : from < len) where
    copy_from-missing :
        translate_user_addr m cr3 (base + from) false ≡ none
        → copy_from m cr3 base len (suc fuel) out from ≡ (false, out)
    unfolding copy_from
    copy_from-missing e = rw (lt→ltb from len lt, no_wrap m cr3 base len false from top lt, e) refl

    copy_from-found :
        (phys : ℕ)
        → translate_user_addr m cr3 (base + from) false ≡ some phys
        → copy_from m cr3 base len (suc fuel) out from
          ≡ copy_from m cr3 base len fuel
              (copy_in (step_len (base + from) (len - from)) out from m phys)
              (from + step_len (base + from) (len - from))
    unfolding copy_from
    copy_from-found phys e =
        rw (lt→ltb from len lt, no_wrap m cr3 base len false from top lt, e)
          (ap
            (λ (a : ℕ).
              copy_from m cr3 base len fuel (copy_in (step_len a (len - from)) out from m phys)
                (from + step_len a (len - from)))
            (no_wrap m cr3 base len false from top lt))

  -- What the rounds from the offset `from` on leave in the buffer `out`.
  record Copied (from : ℕ) (out : List ℕ) (ok : Bool) (r : Bool × List ℕ) : Type 0 where
    result : r.0 ≡ ok
    size : length r.1 ≡ length out
    outside : (i : ℕ) → (ltb i from || leb len i) ≡ true → get_or r.1 i 0 ≡ get_or out i 0
    inside : ok ≡ true → (i : ℕ) → from ≤ i → i < len → get_or r.1 i 0 ≡ user_byte m cr3 (base + i)

  -- The bytes of a round.
  user_byte_step :
      (from i phys : ℕ)
      → from ≤ i
      → i < from + step_len (base + from) (len - from)
      → translate_user_addr m cr3 (base + from) false ≡ some phys
      → user_byte m cr3 (base + i) ≡ m (phys + (i - from))
  user_byte_step from i phys ge lt e =
      let at : base + i ≡ base + from + (i - from) = omega arith in
      let (short, moves, inside) = step_len_lem (base + from) (len - from) in
      rw at (
        ap (byte_at m)
          (translate_user_addr-add m cr3 (base + from) (i - from) phys false (omega arith) e))

  Copied-step :
      (from phys : ℕ) (out : List ℕ) (ok : Bool) (r : Bool × List ℕ)
      → from < len
      → len ≤ length out
      → translate_user_addr m cr3 (base + from) false ≡ some phys
      → Copied
          (from + step_len (base + from) (len - from))
          (copy_in (step_len (base + from) (len - from)) out from m phys)
          ok
          r
      → Copied from out ok r
  Copied-step from phys out ok r lt room e c =
      let n : ℕ = step_len (base + from) (len - from) in
      let (short, moves, fits) = step_len_lem (base + from) (len - from) in
      let put = λ (i : ℕ). get_or-copy_in n out from m phys i (omega arith) in
      record {
        result = c.result;
        size = c.size ∙ length-copy_in n out from m phys;
        outside = λ i h. c.outside i (ground arith) ∙ ground (arith, put i);
        inside = λ good i ge below. elim (Bool-cases (ltb i (from + n))) [
          | inr later ↦ c.inside good i (ground arith) below
          | inl now ↦
              c.outside i (ground arith)
              ∙ ground (arith, put i, user_byte_step from i phys ge (ltb→lt i (from + n) now) e)
        ];
      }

  -- The buffer after all rounds.
  Copied-whole :
      (out : List ℕ) (ok : Bool) (r : Bool × List ℕ)
      → len ≤ length out
      → Copied 0 out ok r
      → ok ≡ true
      → r.1 ≡ user_bytes m cr3 base len ++ drop len out
  Copied-whole out ok r room c good =
      let seen = user_bytes m cr3 base len in
      list_ext 0 r.1 (seen ++ drop len out)
        (omega (
          arith,
          c.size,
          length-append seen (drop len out),
          length-user_bytes m cr3 base len,
          length-drop len out,
        ))
        λ i. elim (Bool-cases (ltb i len)) [
          | inl within ↦
              c.inside good i (omega arith) (ltb→lt i len within)
              ∙ ground (
                arith,
                get_or-append seen (drop len out) i 0,
                length-user_bytes m cr3 base len,
                get_or-user_bytes m cr3 base len i,
              )
          | inr past ↦
              c.outside i (ground arith)
              ∙ ground (
                arith,
                get_or-append seen (drop len out) i 0,
                length-user_bytes m cr3 base len,
                get_or-drop len out (i - len) 0,
              )
        ]

  Copied-drop :
      (out : List ℕ) (ok : Bool) (r : Bool × List ℕ)
      → len ≤ length out
      → Copied 0 out ok r
      → drop len r.1 ≡ drop len out
  Copied-drop out ok r room c =
      list_ext 0 (drop len r.1) (drop len out)
        (omega (arith, c.size, length-drop len r.1, length-drop len out))
        λ i. ground (arith, get_or-drop len r.1 i 0, get_or-drop len out i 0, c.outside (len + i))

  copy_from-Copied :
      (fuel : ℕ) (out : List ℕ) (from : ℕ)
      → base + len ≤ 2 ^ 64
      → len ≤ length out
      → len ≤ from + fuel
      → Copied from out
          (validate_from m cr3 base len fuel false from)
          (copy_from m cr3 base len fuel out from)
  unfolding copy_from validate_from
  copy_from-Copied zero out from top room enough = record {
    result = refl;
    size = refl;
    outside = λ i h. refl;
    inside = λ e i ge lt. absurd (omega arith);
  }
  copy_from-Copied (suc fuel) out from top room enough = elim (Bool-cases (ltb from len)) [
    | inr end ↦ rw end (record {
      result = refl;
      size = refl;
      outside = λ i h. refl;
      inside = λ e i ge lt. absurd (ground arith);
    })
    | inl more ↦
        let lt = ltb→lt from len more in
        let valid = validate_from_step m cr3 base len false fuel from top lt in
        elim (Option-cases (translate_user_addr m cr3 (base + from) false)) [
          | inl e ↦
              rw (copy_from-missing fuel out from top lt e, valid, e)
                (record {
                  result = refl;
                  size = refl;
                  outside = λ i h. refl;
                  inside = λ f i ge below. ground arith;
                })
          | inr (phys, e) ↦
              let n : ℕ = step_len (base + from) (len - from) in
              let (short, moves, fits) = step_len_lem (base + from) (len - from) in
              rw (copy_from-found fuel out from top lt phys e, valid, e)
                (Copied-step from phys out _ _ lt room e (
                  copy_from-Copied fuel (copy_in n out from m phys) (from + n) top
                    (omega (arith, length-copy_in n out from m phys))
                    (omega (arith, moves (omega arith)))))
        ]
  ]

  -- For a buffer of at least `len` bytes: `copy_from_user` succeeds exactly if `len` is 0, or the
  -- pointer is not null and `usercopy_validate_range` accepts the range for reading. Then the buffer begins with
  -- the bytes that user space sees in the range. In either case the rest of the buffer is as it was.
  pub copy_from_user_lem :
      (dst : List ℕ)
      → base < 2 ^ 64
      → len < 2 ^ 64
      → len ≤ length dst
      → ((accepts m cr3 base len ≡ true)
          × (copy_from_user m cr3 base len dst ≡ (true, user_bytes m cr3 base len ++ drop len dst)))
        ⊎ ((accepts m cr3 base len ≡ false)
            × ((copy_from_user m cr3 base len dst).0 ≡ false)
            × (drop len (copy_from_user m cr3 base len dst).1 ≡ drop len dst))
  unfolding copy_from_user validate_range
  copy_from_user_lem dst b l room = elim (Bool-cases (len == 0)) [
    | inl empty ↦
        let none_left : len ≡ 0 = ground arith in inl (rw empty refl, rw (empty, none_left) refl)
    | inr more ↦ elim (Bool-cases (base == 0)) [
      | inl null ↦ inr (rw (more, null) refl, rw (more, null) refl, rw (more, null) refl)
      | inr pointer ↦ elim (Bool-cases (range_wraps base len)) [
        | inl wraps ↦ inr (
          rw (more, pointer, wraps) refl,
          rw (more, pointer, wraps) refl,
          rw (more, pointer, wraps) refl,
        )
        | inr fits ↦
            let top = (range_wraps_iff base len b l).0 fits in
            let c = copy_from-Copied len dst 0 top room (omega arith) in
            elim (Bool-cases (validate_from m cr3 base len len false 0)) [
              | inl valid ↦ inl (
                rw (more, pointer, fits) valid,
                rw (more, pointer, fits)
                    (ap₂ (λ a b. (a, b)) (c.result ∙ valid) (Copied-whole dst _ _ room c valid)),
              )
              | inr invalid ↦ inr (
                rw (more, pointer, fits) invalid,
                rw (more, pointer, fits) (c.result ∙ invalid),
                rw (more, pointer, fits) (Copied-drop dst _ _ room c),
              )
            ]
      ]
    ]
  ]
