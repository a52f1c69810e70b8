-- ===== src/Prelude/OrBits.antt =====
-- The laws of `|` that entries of page tables need.
use Prim.Native.Nat.{ℕ, zero, suc, ◌+◌, ◌*◌, ◌/◌, ◌%◌, ◌^◌, ◌≤◌, ◌<◌}
use mathlib.Core.Path.{◌≡◌, ◌∙◌, ap}
use native.Mathlib.Omega.{arith}
use tang_ping_os.Prelude.Tests.{◌==◌, if◌then◌else◌}
use tang_ping_os.Prelude.Words.{has_bit}
use tang_ping_os.Prelude.Physical.{or_bits, or64}

-- 2 ^ n and x * 2 ^ n, by doubling.
abbrev pow : ℕ → ℕ
pow zero = 1
pow (suc n) = 2 * pow n

abbrev shift : ℕ → ℕ → ℕ
shift zero x = x
shift (suc n) x = 2 * shift n x

or_bits-zero : (w a : ℕ) → a < pow w → or_bits w a 0 ≡ a
unfolding or_bits
or_bits-zero zero a h = omega arith
or_bits-zero (suc w) a h = ground (arith, or_bits-zero w (a / 2) (omega arith))

or_bits-zero_left : (w b : ℕ) → b < pow w → or_bits w 0 b ≡ b
unfolding or_bits
or_bits-zero_left zero b h = omega arith
or_bits-zero_left (suc w) b h = ground (arith, or_bits-zero_left w (b / 2) (omega arith))

or_bits-lt : (w a b : ℕ) → or_bits w a b < pow w
unfolding or_bits
or_bits-lt zero a b = omega arith
or_bits-lt (suc w) a b = ground (arith, or_bits-lt w (a / 2) (b / 2))

or_bits-double : (w a b : ℕ) → or_bits (suc w) a (2 * b) ≡ a % 2 + 2 * or_bits w (a / 2) b
unfolding or_bits
or_bits-double w a b =
    let half : 2 * b / 2 ≡ b = omega arith in ground (arith, ap (or_bits w (a / 2)) half)

or_bits-double_left : (w a b : ℕ) → or_bits (suc w) (2 * a) b ≡ b % 2 + 2 * or_bits w a (b / 2)
unfolding or_bits
or_bits-double_left w a b =
    let half : 2 * a / 2 ≡ a = omega arith in
    ground (arith, ap (λ (x : ℕ). or_bits w x (b / 2)) half)

-- Words without a bit in common: the bits of `b` lie above those of `a`.
or_bits-above :
    (n w a b : ℕ) → n ≤ w → a < pow n → shift n b < pow w → or_bits w a (shift n b) ≡ a + shift n b
or_bits-above zero w a b le h k =
    let none_set : a ≡ 0 = omega arith in rw none_set (or_bits-zero_left w b k ∙ omega arith)
or_bits-above (suc n) zero a b le h k = absurd (omega arith)
or_bits-above (suc n) (suc w) a b le h k =
    or_bits-double w a (shift n b)
    ∙ omega (arith, or_bits-above n w (a / 2) b (omega arith) (omega arith) (omega arith))

-- The bits of `a` lie above `n` places.
low_bits : ℕ → ℕ → ℕ
low_bits zero b = 0
low_bits (suc n) b = let rest = low_bits n (b / 2) in b % 2 + 2 * rest

high_bits : ℕ → ℕ → ℕ
high_bits zero b = b
high_bits (suc n) b = high_bits n (b / 2)

or_bits-shift :
    (n w a b : ℕ)
    → or_bits (n + w) (shift n a) b ≡ low_bits n b + shift n (or_bits w a (high_bits n b))
unfolding low_bits high_bits
or_bits-shift zero w a b = let at : 0 + w ≡ w = omega arith in rw at (omega arith)
or_bits-shift (suc n) w a b =
    let at : suc n + w ≡ suc (n + w) = omega arith in
    rw at (or_bits-double_left (n + w) (shift n a) b ∙ omega (arith, or_bits-shift n w a (b / 2)))

-- Setting one bit.
set_bit : ℕ → ℕ → ℕ
set_bit zero a = if a % 2 == 1 then a else a + 1
set_bit (suc k) a = let rest = set_bit k (a / 2) in a % 2 + 2 * rest

or_bits-pow : (k w a : ℕ) → k < w → a < pow w → or_bits w a (pow k) ≡ set_bit k a
unfolding or_bits set_bit
or_bits-pow k zero a lt h = absurd (omega arith)
or_bits-pow zero (suc w) a lt h = ground (arith, or_bits-zero w (a / 2) (omega arith))
or_bits-pow (suc k) (suc w) a lt h =
    or_bits-double w a (pow k)
    ∙ ap (λ (x : ℕ). a % 2 + 2 * x) (or_bits-pow k w (a / 2) (omega arith) (omega arith))

module _ (x : ℕ) (h : x < 2 ^ 64) where
  pub or64-bit0 : or64 x 1 ≡ (if has_bit x 0 then x else x + 1)
  unfolding set_bit
  or64-bit0 = or_bits-pow 0 64 x (omega arith) h ∙ ground arith

  pub or64-bit1 : or64 x 2 ≡ (if has_bit x 1 then x else x + 2)
  unfolding set_bit
  or64-bit1 = or_bits-pow 1 64 x (omega arith) h ∙ ground arith

  pub or64-bit2 : or64 x 4 ≡ (if has_bit x 2 then x else x + 4)
  unfolding set_bit
  or64-bit2 = or_bits-pow 2 64 x (omega arith) h ∙ ground arith

  pub or64-bit3 : or64 x 8 ≡ (if has_bit x 3 then x else x + 8)
  unfolding set_bit
  or64-bit3 = or_bits-pow 3 64 x (omega arith) h ∙ ground arith

  pub or64-bit4 : or64 x 16 ≡ (if has_bit x 4 then x else x + 16)
  unfolding set_bit
  or64-bit4 = or_bits-pow 4 64 x (omega arith) h ∙ ground arith

  pub or64-zero : or64 x 0 ≡ x
  or64-zero = or_bits-zero 64 x h

low_bits-page : (b : ℕ) → low_bits 12 b ≡ b % 4096
unfolding low_bits
low_bits-page b = omega arith

high_bits-page : (b : ℕ) → b < 2 ^ 64 → b % 2 ^ 52 < 4096 → high_bits 12 b ≡ shift 40 (b / 2 ^ 52)
unfolding high_bits
high_bits-page b h k = omega arith

-- A physical page and flags outside the bits of its address.
pub or64-page :
    (p b : ℕ) → p < 2 ^ 40 → b < 2 ^ 64 → b % 2 ^ 52 < 4096 → or64 (p * 4096) b ≡ p * 4096 + b
or64-page p b small h k =
    let at : p * 4096 ≡ shift 12 p = omega arith in
    let above = or_bits-above 40 52 p (b / 2 ^ 52) (omega arith) small (omega arith) in
    rw at
      (or_bits-shift 12 52 p b ∙ rw (low_bits-page b, high_bits-page b h k, above) (omega arith))
