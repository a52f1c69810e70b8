-- ===== src/Pmm/Full.antt =====
-- The allocator with every page in use, as the first loop of `memory_init` leaves the bitmap.
use tang_ping_os.Prelude.{
  ℕ, zero, suc, ◌/◌, ◌%◌, ◌<◌, ◌≤◌, ◌≡◌, refl, ◌∙◌, Bool, true, false, List, [], get_or,
  get_or-replicate, length-replicate, replicate, arith, ◌==◌,
}
use tang_ping_os.Pmm.{Pmm, max_pages, bitmap_words, word_bits, set_free, test_bit}
use tang_ping_os.Pmm.Bits.{WordsOk, clear_bits}
use tang_ping_os.Pmm.Alloc.{IsValid, set_free-Wrote}

abbrev pub used_word : List Bool
used_word = replicate word_bits true

WordsOk-replicate : (n : ℕ) → WordsOk (replicate n used_word)
WordsOk-replicate zero = tt
WordsOk-replicate (suc n) = (refl, WordsOk-replicate n)

clear_bits-replicate : (n : ℕ) → clear_bits (replicate n used_word) ≡ 0
clear_bits-replicate zero = refl
clear_bits-replicate (suc n) = omega (arith, clear_bits-replicate n)

-- `pages` pages are managed, and each byte of memory is `byte`.
abbrev pub full : ℕ → ℕ → ℕ → Pmm
full words pages byte = record {
  bitmap = replicate words used_word;
  max_page_index = pages;
  managed_count = pages;
  free_count = 0;
  next_hint = 0;
  memory = λ a. byte;
}

pub full-IsValid :
    (words pages byte : ℕ)
    → words ≡ bitmap_words
    → pages ≤ max_pages
    → IsValid (full words pages byte)
full-IsValid words pages byte e le = record {
  words = WordsOk-replicate words;
  slots = omega (arith, length-replicate words used_word);
  managed = le;
  hint = omega arith;
  counted = omega (arith, clear_bits-replicate words);
}

get_or-words : (n k j : ℕ) → get_or (get_or (replicate n used_word) k []) j true ≡ true
get_or-words zero k j = refl
get_or-words (suc n) zero j = get_or-replicate word_bits j true
get_or-words (suc n) (suc k) j = get_or-words n k j

pub test_bit-full :
    (words pages byte page : ℕ) → test_bit (full words pages byte).bitmap page ≡ true
unfolding test_bit
test_bit-full words pages byte page = get_or-words words (page / word_bits) (page % word_bits)

module _ (s : Pmm) (page : ℕ) (v : IsValid s) (lt : page < max_pages) where
  pub set_free-IsValid : IsValid (set_free s page)
  unfolding set_free
  set_free-IsValid =
      let w = set_free-Wrote s page v lt in
      record {
        words = w.words;
        slots = w.slots;
        managed = v.managed;
        hint = v.hint;
        counted = w.counted;
      }

  pub test_bit-set_free :
      (q : ℕ) → (page == q) ≡ false → test_bit (set_free s page).bitmap q ≡ test_bit s.bitmap q
  test_bit-set_free q ne = (set_free-Wrote s page v lt).bits q ∙ rw ne refl

pub memory-set_free : (s : Pmm) (page a : ℕ) → (set_free s page).memory a ≡ s.memory a
unfolding set_free
memory-set_free s page a = refl
