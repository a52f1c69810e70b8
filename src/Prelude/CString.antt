-- ===== src/Prelude/CString.antt =====
-- C strings. A string is the list of its characters before the terminating NUL.
use Prim.Native.Nat.{ℕ, zero, suc, ◌≤◌}
use Prim.Native.Char.{code}
use Prim.Native.String.{String}
use mathlib.Core.Path.{◌≡◌, refl, ap}
use mathlib.Core.Logic.{◌↔◌}
use mathlib.Core.Bool.{Bool, true, false, ◌&&◌}
use mathlib.Core.List.{List, [], ◌∷◌}
use native.Mathlib.Omega.{arith}
use tang_ping_os.Prelude.Tests.{◌==◌}
use tang_ping_os.Prelude.Lists.{length, take}

abbrev pub Text : Type 0
Text = List ℕ

-- The characters of a string literal.
abbrev pub codes : String → Text
codes String.[] = []
codes (String.◌∷◌ c s) = code c ∷ codes s

-- `chars_equal` and `strings_equal`: the files have a copy each of the same loop.
unfoldable pub chars_equal : Text → Text → Bool
chars_equal [] [] = true
chars_equal [] (y ∷ ys) = false
chars_equal (x ∷ xs) [] = false
chars_equal (x ∷ xs) (y ∷ ys) = x == y && chars_equal xs ys

-- `copy_limited(dst, dst_len, src)`: at most `dst_len - 1` characters, then the NUL.
unfoldable pub copy_limited : ℕ → Text → Text
copy_limited zero src = []
copy_limited (suc n) src = take n src

pub chars_equal→eq : (a b : Text) → chars_equal a b ≡ true → a ≡ b
unfolding chars_equal
chars_equal→eq [] [] h = refl
chars_equal→eq [] (y ∷ ys) h = ground arith
chars_equal→eq (x ∷ xs) [] h = ground arith
chars_equal→eq (x ∷ xs) (y ∷ ys) h = ground (arith, chars_equal→eq xs ys)

pub chars_equal_refl : (a : Text) → chars_equal a a ≡ true
unfolding chars_equal
chars_equal_refl [] = refl
chars_equal_refl (x ∷ xs) = ground (arith, chars_equal_refl xs)

pub chars_equal_iff : (a b : Text) → (chars_equal a b ≡ true) ↔ (a ≡ b)
chars_equal_iff a b = (chars_equal→eq a b, λ e. rw e (chars_equal_refl b))

pub chars_equal_comm : (a b : Text) → chars_equal a b ≡ chars_equal b a
unfolding chars_equal
chars_equal_comm [] [] = refl
chars_equal_comm [] (y ∷ ys) = refl
chars_equal_comm (x ∷ xs) [] = refl
chars_equal_comm (x ∷ xs) (y ∷ ys) = ground (arith, chars_equal_comm xs ys)

-- A string that fits is copied whole.
pub take_of_length-le : (n : ℕ) (s : Text) → length s ≤ n → take n s ≡ s
take_of_length-le zero [] h = refl
take_of_length-le zero (x ∷ s) h = absurd (omega arith)
take_of_length-le (suc n) [] h = refl
take_of_length-le (suc n) (x ∷ s) h = ap (λ r. x ∷ r) (take_of_length-le n s (omega arith))
