-- ===== src/Pmm/Bits.antt =====
-- Bits of the bitmap, and how many of them are clear.
use tang_ping_os.Prelude.{
  ℕ, zero, suc, ◌+◌, ◌*◌, ◌/◌, ◌%◌, ◌≤◌, ◌<◌, ◌≡◌, Bool, true, List, [], ◌∷◌, length, length-set,
  get_or, get_or-set, set, ◌==◌, if◌then◌else◌, arith,
}
use tang_ping_os.Pmm.{Bitmap, word_bits, test_bit, write_bit}

-- Every word has its 64 bits.
abbrev pub WordsOk : Bitmap → Type 0
WordsOk [] = Unit
WordsOk (w ∷ b) = (length w ≡ word_bits) × WordsOk b

-- The number of pages that the bitmap has bits for.
abbrev pub capacity : Bitmap → ℕ
capacity b = length b * word_bits

abbrev pub clear_in : List Bool → ℕ
clear_in [] = 0
clear_in (x ∷ w) = (if x then 0 else 1) + clear_in w

-- The number of clear bits: the pages that are free.
abbrev pub clear_bits : Bitmap → ℕ
clear_bits [] = 0
clear_bits (w ∷ b) = clear_in w + clear_bits b

abbrev pub free_bit : Bool → ℕ
free_bit v = if v then 0 else 1

clear_in-le : (w : List Bool) → clear_in w ≤ length w
clear_in-le [] = omega arith
clear_in-le (x ∷ w) = ground (arith, clear_in-le w)

pub clear_bits-le : (b : Bitmap) → WordsOk b → clear_bits b ≤ capacity b
clear_bits-le [] ok = omega arith
clear_bits-le (w ∷ b) ok = omega (arith, clear_in-le w, clear_bits-le b ok.1)

clear_in-set :
    (w : List Bool) (i : ℕ) (v : Bool)
    → i < length w
    → clear_in (set w i v) + free_bit (get_or w i true) ≡ clear_in w + free_bit v
clear_in-set [] i v h = absurd (omega arith)
clear_in-set (x ∷ w) zero v h = omega arith
clear_in-set (x ∷ w) (suc i) v h = omega (arith, clear_in-set w i v)

clear_bits-set :
    (b : Bitmap) (i : ℕ) (w : List Bool)
    → i < length b
    → clear_bits (set b i w) + clear_in (get_or b i []) ≡ clear_bits b + clear_in w
clear_bits-set [] i w h = absurd (omega arith)
clear_bits-set (x ∷ b) zero w h = omega arith
clear_bits-set (x ∷ b) (suc i) w h = omega (arith, clear_bits-set b i w)

WordsOk-get : (b : Bitmap) (i : ℕ) → i < length b → WordsOk b → length (get_or b i []) ≡ word_bits
WordsOk-get [] i h ok = absurd (omega arith)
WordsOk-get (w ∷ b) zero h ok = ok.0
WordsOk-get (w ∷ b) (suc i) h ok = WordsOk-get b i (omega arith) ok.1

WordsOk-set :
    (b : Bitmap) (i : ℕ) (w : List Bool) → length w ≡ word_bits → WordsOk b → WordsOk (set b i w)
WordsOk-set [] i w e ok = ok
WordsOk-set (x ∷ b) zero w e ok = (e, ok.1)
WordsOk-set (x ∷ b) (suc i) w e ok = (ok.0, WordsOk-set b i w e ok.1)

module _ (b : Bitmap) (ok : WordsOk b) (page : ℕ) (inside : page < capacity b) (v : Bool) where
  word_inside : page / word_bits < length b
  word_inside = omega arith

  pub write_bit-WordsOk : WordsOk (write_bit b page v)
  unfolding write_bit
  write_bit-WordsOk =
      WordsOk-set b (page / word_bits) (set (get_or b (page / word_bits) []) (page % word_bits) v)
        (omega (
          arith,
          length-set (get_or b (page / word_bits) []) (page % word_bits) v,
          WordsOk-get b (page / word_bits) word_inside ok,
        ))
        ok

  pub length-write_bit : length (write_bit b page v) ≡ length b
  unfolding write_bit
  length-write_bit =
      length-set b (page / word_bits) (set (get_or b (page / word_bits) []) (page % word_bits) v)

  -- Writing the bit of one page changes that bit and no other.
  pub test_bit-write_bit :
      (j : ℕ) → test_bit (write_bit b page v) j ≡ (if page == j then v else test_bit b j)
  unfolding test_bit write_bit
  test_bit-write_bit j = ground (
    arith,
    word_inside,
    WordsOk-get b (page / word_bits) word_inside ok,
    get_or-set b (page / word_bits) (j / word_bits)
        (set (get_or b (page / word_bits) []) (page % word_bits) v) [],
    get_or-set (get_or b (page / word_bits) []) (page % word_bits) (j % word_bits) v true,
  )

  -- and the number of clear bits changes with it.
  pub clear_bits-write_bit :
      clear_bits (write_bit b page v) + free_bit (test_bit b page) ≡ clear_bits b + free_bit v
  unfolding test_bit write_bit
  clear_bits-write_bit = omega (
    arith,
    clear_bits-set b (page / word_bits) (set (get_or b (page / word_bits) []) (page % word_bits) v)
        word_inside,
    clear_in-set (get_or b (page / word_bits) []) (page % word_bits) v
        (omega (arith, WordsOk-get b (page / word_bits) word_inside ok)),
  )
