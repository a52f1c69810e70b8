-- ===== src/Input/Queue.antt =====
-- The input buffer behaves as a queue of at most 255 characters.
use mathlib.Core.Path.{ap₂}
use tang_ping_os.Prelude.{
  ℕ, zero, suc, ◌+◌, ◌-◌, ◌%◌, ◌<◌, ◌≡◌, refl, ap, List, [], ◌∷◌, ◌++◌, arith, length, length-set,
  get_or, get_or-set, set, Bool-cases, inl, inr, false, add64, take, drop, ◌==◌, if◌then◌else◌,
}
use tang_ping_os.Input.{Input, buffer_size, push_key, read}

pub record IsValid (s : Input) : Type 0 where
  pub storage : length s.buffer ≡ buffer_size
  pub read_in : s.read_pos < buffer_size
  pub write_in : s.write_pos < buffer_size

-- The `n` characters from index `h` on, going round at the buffer's end.
abbrev pub window : List ℕ → ℕ → ℕ → List ℕ
window buf zero h = []
window buf (suc n) h = get_or buf h 0 ∷ window buf n ((h + 1) % buffer_size)

abbrev pub pending : Input → ℕ
pending s = (s.write_pos + buffer_size - s.read_pos) % buffer_size

-- The characters not yet read, oldest first.
abbrev pub contents : Input → List ℕ
contents s = window s.buffer (pending s) s.read_pos

length-window : (buf : List ℕ) (n h : ℕ) → length (window buf n h) ≡ n
length-window buf zero h = refl
length-window buf (suc n) h = ap suc (length-window buf n ((h + 1) % buffer_size))

-- A write just past a window extends it.
window-set :
    (buf : List ℕ) (c n h i : ℕ)
    → length buf ≡ buffer_size
    → h < buffer_size
    → n < buffer_size
    → i ≡ (h + n) % buffer_size
    → window (set buf i c) (suc n) h ≡ window buf n h ++ (c ∷ [])
window-set buf c zero h i len hh hn e = ground (arith, get_or-set buf i h c 0)
window-set buf c (suc n) h i len hh hn e =
    ap₂ ◌∷◌ (ground (arith, get_or-set buf i h c 0))
      (window-set buf c n ((h + 1) % buffer_size) i len (omega arith) (omega arith) (omega arith))

-- `window` matches on `suc`, the code compares positions.
window_of_pos :
    (buf : List ℕ) (n h : ℕ)
    → 0 < n
    → window buf n h ≡ get_or buf h 0 ∷ window buf (n - 1) ((h + 1) % buffer_size)
window_of_pos buf zero h p = absurd (omega arith)
window_of_pos buf (suc n) h p =
    ap (λ k. get_or buf h 0 ∷ window buf k ((h + 1) % buffer_size)) (omega arith)

pub push_key-IsValid : (c : ℕ) {s : Input} → IsValid s → IsValid (push_key s c)
unfolding push_key
push_key-IsValid c {s} v = ground (arith, length-set s.buffer s.write_pos c)

-- With both positions inside the buffer, pushing a key appends it to the characters pending,
-- unless 255 are pending already; then it leaves them as they are.
pub contents-push_key :
    (c : ℕ) {s : Input}
    → IsValid s
    → contents (push_key s c)
      ≡ (if length (contents s) == 255 then contents s else contents s ++ (c ∷ []))
unfolding push_key
contents-push_key c {s} v = elim (Bool-cases ((s.write_pos + 1) % 256 == s.read_pos)) [
  | inl full ↦ ground (arith, length-window s.buffer (pending s) s.read_pos)
  | inr room ↦ ground (arith, length-window s.buffer (pending s) s.read_pos, pushed)
]
  where
    pushed :
        window (set s.buffer s.write_pos c) (suc (pending s)) s.read_pos
        ≡ window s.buffer (pending s) s.read_pos ++ (c ∷ [])
    pushed =
        window-set s.buffer c (pending s) s.read_pos s.write_pos v.storage v.read_in (omega arith)
          (omega arith)

-- The state after the removal of one character.
abbrev advance : Input → Input
advance s = record s { read_pos = add64 s.read_pos 1 % buffer_size }

advance-IsValid : {s : Input} → IsValid s → IsValid (advance s)
advance-IsValid v = omega arith

pub read-IsValid : (n : ℕ) {s : Input} → IsValid s → IsValid (read n s).1
unfolding read
read-IsValid zero v = v
read-IsValid (suc n) {s} v = ground (arith, read-IsValid n (advance-IsValid v))

-- With both positions inside the buffer, a read of `n` characters returns the oldest pending
-- ones, as many as there are up to `n`, and leaves the others pending.
pub read_lem :
    (n : ℕ) {s : Input}
    → IsValid s
    → ((read n s).0 ≡ take n (contents s)) × (contents (read n s).1 ≡ drop n (contents s))
unfolding read
read_lem zero v = (refl, refl)
read_lem (suc n) {s} v = elim (Bool-cases (s.read_pos == s.write_pos)) [
  | inl empty ↦ let none_left : pending s ≡ 0 = ground arith in rw (empty, none_left) (refl, refl)
  | inr more ↦ ground (
    arith,
    window_of_pos s.buffer (pending s) s.read_pos,
    read_lem n (advance-IsValid v),
    pending-advance more,
  )
]
  where
    pending-advance : (s.read_pos == s.write_pos) ≡ false → pending (advance s) ≡ pending s - 1
    pending-advance more = ground arith
