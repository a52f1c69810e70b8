-- ===== src/Usercopy/Texts.antt =====
-- Copying a string from user memory.
use mathlib.Core.Option
use mathlib.Core.Path.{ap₂}
use tang_ping_os.Prelude.{
  ℕ, zero, suc, ◌+◌, ◌-◌, ◌^◌, ◌≤◌, ◌<◌, ◌≡◌, ◌≢◌, refl, sym, ap, ◌∙◌, ◌⊎◌, inl, inr, Option, none,
  some, Bool, true, false, ◌&&◌, ◌||◌, List, [], ◌∷◌, ◌++◌, Text, Memory, length, length-set,
  length-append, length-drop, get_or, get_or-set, get_or-append, get_or-drop, get_or_past, set,
  drop, list_ext, leb, ◌==◌, if◌then◌else◌, add64, arith, Bool-cases, Option-cases,
}
use tang_ping_os.Vmm.{translate_user_addr}
use tang_ping_os.Vmm.Walk.{translate_user_addr-lt}
use tang_ping_os.Usercopy.{copy_string, copy_string_from_user}

-- The character that user space sees at an address, if it sees one.
abbrev pub user_char : Memory → ℕ → ℕ → Option ℕ
user_char m cr3 a = Option.map m (translate_user_addr m cr3 a false)

-- The string that ends with a NUL and that user space sees from an address on is `s`.
abbrev pub IsText : Memory → ℕ → ℕ → Text → Type 0
IsText m cr3 a [] = user_char m cr3 a ≡ some 0
IsText m cr3 a (c ∷ s) = (user_char m cr3 a ≡ some c) × (c ≢ 0) × IsText m cr3 (a + 1) s

user_char-some :
    (m : Memory) (cr3 a c : ℕ)
    → user_char m cr3 a ≡ some c
    → (phys : ℕ) × (translate_user_addr m cr3 a false ≡ some phys) × (m phys ≡ c)
user_char-some m cr3 a c e = elim (Option-cases (translate_user_addr m cr3 a false)) [
  | inl missing ↦ absurd (ground arith)
  | inr (phys, found) ↦ (phys, found, ground arith)
]

get_or-cons :
    (c : ℕ) (s : List ℕ) (k : ℕ) → get_or (c ∷ s) k 0 ≡ (if k == 0 then c else get_or s (k - 1) 0)
get_or-cons c s zero = refl
get_or-cons c s (suc k) =
    let below : suc k - 1 ≡ k = omega arith in ground (arith, ap (λ (j : ℕ). get_or s j 0) below)

module _ (m : Memory) (cr3 base : ℕ) where
  module _ (left : ℕ) (dst : List ℕ) (i : ℕ) (top : base + i < 2 ^ 64) where
    at : add64 base i ≡ base + i
    at = omega arith

    copy_string-missing :
        translate_user_addr m cr3 (base + i) false ≡ none
        → copy_string m cr3 base (suc left) dst i ≡ (false, dst)
    unfolding copy_string
    copy_string-missing e = rw (copy_string, at, e) refl

    copy_string-end :
        (phys : ℕ)
        → translate_user_addr m cr3 (base + i) false ≡ some phys
        → m phys ≡ 0
        → copy_string m cr3 base (suc left) dst i ≡ (true, set dst i 0)
    unfolding copy_string
    copy_string-end phys e nul = rw (copy_string, at, e, nul) refl

    copy_string-next :
        (phys : ℕ)
        → translate_user_addr m cr3 (base + i) false ≡ some phys
        → (m phys == 0) ≡ false
        → copy_string m cr3 base (suc left) dst i
          ≡ copy_string m cr3 base left (set dst i (m phys)) (i + 1)
    unfolding copy_string
    copy_string-next phys e more = rw (copy_string, at, e, more) refl

  -- What the loop from the index `i` on leaves in the buffer, when the string there is `s`.
  record Put (i : ℕ) (s : Text) (dst : List ℕ) (r : Bool × List ℕ) : Type 0 where
    done : r.0 ≡ true
    size : length r.1 ≡ length dst
    chars :
        (j : ℕ)
        → get_or r.1 j 0
          ≡ (if leb i j && leb j (i + length s) then get_or s (j - i) 0 else get_or dst j 0)

  copy_string-Put :
      (left : ℕ) (dst : List ℕ) (i : ℕ) (s : Text)
      → base + i < 2 ^ 64
      → i + left ≤ length dst
      → IsText m cr3 (base + i) s
      → length s < left
      → Put i s dst (copy_string m cr3 base left dst i)
  copy_string-Put zero dst i s top room t fits = absurd (omega arith)
  copy_string-Put (suc left) dst i [] top room t fits =
      let (phys, found, nul) = user_char-some m cr3 (base + i) 0 t in
      rw (copy_string-end left dst i top phys found nul) (record {
        done = refl;
        size = length-set dst i 0;
        chars = λ j. ground (arith, get_or-set dst i j 0 0);
      })
  copy_string-Put (suc left) dst i (c ∷ s) top room t fits =
      let (phys, found, same) = user_char-some m cr3 (base + i) c t.0 in
      let below = translate_user_addr-lt m cr3 (base + i) phys false found in
      let up : base + i + 1 ≡ base + (i + 1) = omega arith in
      let rest =
        copy_string-Put left (set dst i c) (i + 1) s (omega arith)
          (omega (arith, length-set dst i c)) (rw (← up) t.2) (omega arith) in
      rw (copy_string-next left dst i top phys found (ground (arith, t.1)), same)
        (record {
          done = rest.done;
          size = rest.size ∙ length-set dst i c;
          chars =
              λ j. rest.chars j ∙ ground (arith, get_or-set dst i j c 0, get_or-cons c s (j - i));
        })

  Put-whole :
      (s : Text) (dst : List ℕ) (r : Bool × List ℕ)
      → length s < length dst
      → Put 0 s dst r
      → r ≡ (true, s ++ (0 ∷ drop (length s + 1) dst))
  Put-whole s dst r fits p =
      let rest = 0 ∷ drop (length s + 1) dst in
      ap₂ (λ a b. (a, b)) p.done
        (list_ext 0 r.1 (s ++ rest)
          (omega (arith, p.size, length-append s rest, length-drop (length s + 1) dst))
          λ j.
            p.chars j
            ∙ ground (
              arith,
              get_or-append s rest j 0,
              get_or-cons 0 (drop (length s + 1) dst) (j - length s),
              get_or-drop (length s + 1) dst (j - length s - 1) 0,
              get_or_past s j 0,
            ))

  copy_string_sound :
      (left : ℕ) (dst : List ℕ) (i : ℕ)
      → base + i < 2 ^ 64
      → (copy_string m cr3 base left dst i).0 ≡ true
      → (s : Text) × IsText m cr3 (base + i) s × (length s < left)
  unfolding copy_string
  copy_string_sound zero dst i top e = absurd (ground arith)
  copy_string_sound (suc left) dst i top e =
      elim (Option-cases (translate_user_addr m cr3 (base + i) false)) [
        | inl missing ↦ absurd (
            ground
              (arith, ap (λ (r : Bool × List ℕ). r.0) (copy_string-missing left dst i top missing)))
        | inr (phys, found) ↦ elim (Bool-cases (m phys == 0)) [
          | inl nul ↦
              let zero_at : m phys ≡ 0 = ground arith in
              ([], rw found (ap some zero_at), omega arith)
          | inr more ↦
              let below = translate_user_addr-lt m cr3 (base + i) phys false found in
              let up : base + i + 1 ≡ base + (i + 1) = omega arith in
              let (s, t, fits) = copy_string_sound left (set dst i (m phys)) (i + 1) (omega arith) (
                sym (
                  ap (λ (r : Bool × List ℕ). r.0) (copy_string-next left dst i top phys found more))
                ∙ e) in
              (m phys ∷ s, (rw found refl, λ z. ground arith, rw up t), omega arith)
        ]
      ]

  IsText-start : (s : Text) → IsText m cr3 (base + 0) s → IsText m cr3 base s
  IsText-start s t = let start : base + 0 ≡ base = omega arith in rw (← start) t

  -- For a pointer that is not null and a buffer of `max_len` characters at least: either user space
  -- sees there a string that fits the buffer with its NUL, and `copy_string_from_user` succeeds and
  -- leaves that string, its NUL and the rest of the buffer as it was; or user space sees no such
  -- string there, and it fails.
  pub copy_string_from_user_lem :
      (dst : List ℕ) (max_len : ℕ)
      → 0 < base
      → base < 2 ^ 64
      → max_len ≤ length dst
      → ((s : Text) × IsText m cr3 base s
          × (length s < max_len)
          × (copy_string_from_user m cr3 base dst max_len
              ≡ (true, s ++ (0 ∷ drop (length s + 1) dst))))
        ⊎ (¬ ((s : Text) × IsText m cr3 base s × (length s < max_len))
            × ((copy_string_from_user m cr3 base dst max_len).0 ≡ false))
  unfolding copy_string_from_user
  copy_string_from_user_lem dst zero pos top room =
      inr (λ (s, t, fits). absurd (omega arith), ground arith)
  copy_string_from_user_lem dst (suc n) pos top room =
      let start : base + 0 ≡ base = omega arith in
      let goes_on : (base == 0 || suc n == 0) ≡ false = ground arith in
      let put = λ (s : Text) (t : IsText m cr3 base s) (fits : length s < suc n).
        copy_string-Put (suc n) dst 0 s (omega arith) (omega arith) (rw start t) fits in
      elim (Bool-cases (copy_string m cr3 base (suc n) dst 0).0) [
        | inl done ↦
            let (s, t, fits) = copy_string_sound (suc n) dst 0 (omega arith) done in
            let t' = IsText-start s t in
            inl (s, t', fits, rw goes_on (Put-whole s dst _ (omega arith) (put s t' fits)))
        | inr failed ↦ inr (λ (s, t, fits). ground (arith, (put s t fits).done), rw goes_on failed)
      ]
