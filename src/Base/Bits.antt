-- ===== src/Base/Bits.antt =====
-- Masks and shifts as arithmetic: the digit recursion of `|` and `&`, and what the sources use.
use Prim.Native.Nat.{
  ℕ, zero, suc, ◌+◌, ◌-◌, ◌*◌, ◌/◌, ◌%◌, ◌^◌, ◌≤◌, ◌<◌, min, max, bit_and, bit_or, digits,
  bit_and-bitwise, bit_or-bitwise,
}
use mathlib.Core.Path.{◌≡◌, refl, ap, ◌∙◌}
use mathlib.Core.Bool.{Bool, true, ◌&&◌}
use native.Mathlib.Omega.{arith}
use qjs_lws.Base.Tests.{◌==◌}
use native.Mathlib.Nat.{pow-suc, mod-eq_of_lt, add-mul-mod_self_left, div-add-mod, mod-lt}

-- More rounds than the first number has binary digits change nothing.
module _ (end : ℕ → ℕ) (op : ℕ → ℕ → ℕ) where
  digits_enough : (n m a b : ℕ) → a ≤ n → a ≤ m → digits end op n a b ≡ digits end op m a b
  digits_enough zero zero a b p q = refl
  digits_enough zero (suc m) zero b p q = refl
  digits_enough (suc n) zero zero b p q = refl
  digits_enough (suc n) (suc m) zero b p q = refl
  digits_enough zero (suc m) (suc a) b p q = absurd (omega arith)
  digits_enough (suc n) zero (suc a) b p q = absurd (omega arith)
  digits_enough (suc n) (suc m) (suc a) b p q =
      let shorter = digits_enough n m (suc a / 2) (b / 2) (omega arith) (omega arith) in
      omega (arith, shorter)

and_zero_left : (b : ℕ) → bit_and 0 b ≡ 0
and_zero_left b = bit_and-bitwise 0 b

or_zero_left : (b : ℕ) → bit_or 0 b ≡ b
or_zero_left b = bit_or-bitwise 0 b

-- The lowest binary digit, and the rest.
and_halves : (a b : ℕ) → bit_and a b ≡ bit_and (a / 2) (b / 2) * 2 + min (a % 2) (b % 2)
and_halves zero b = omega (arith, and_zero_left b, and_zero_left (b / 2))
and_halves (suc a) b =
    let more = digits_enough (λ b. zero) min a (suc a / 2) (suc a / 2) (b / 2) in
    omega (
      arith,
      bit_and-bitwise (suc a) b,
      bit_and-bitwise (suc a / 2) (b / 2),
      more (omega arith) (omega arith),
    )

or_halves : (a b : ℕ) → bit_or a b ≡ bit_or (a / 2) (b / 2) * 2 + max (a % 2) (b % 2)
or_halves zero b = omega (arith, or_zero_left b, or_zero_left (b / 2))
or_halves (suc a) b =
    let more = digits_enough (λ b. b) max a (suc a / 2) (suc a / 2) (b / 2) in
    omega (
      arith,
      bit_or-bitwise (suc a) b,
      bit_or-bitwise (suc a / 2) (b / 2),
      more (omega arith) (omega arith),
    )

or_zero_right : (n a : ℕ) → a ≤ n → bit_or a 0 ≡ a
or_zero_right n zero h = refl
or_zero_right zero (suc a) h = absurd (omega arith)
or_zero_right (suc n) (suc a) h =
    omega (arith, or_halves (suc a) 0, or_zero_right n (suc a / 2) (omega arith))

and_zero_right : (n a : ℕ) → a ≤ n → bit_and a 0 ≡ 0
and_zero_right n zero h = refl
and_zero_right zero (suc a) h = absurd (omega arith)
and_zero_right (suc n) (suc a) h =
    omega (arith, and_halves (suc a) 0, and_zero_right n (suc a / 2) (omega arith))

or_double : (p l : ℕ) → bit_or (p * 2) l ≡ bit_or p (l / 2) * 2 + l % 2
or_double p l =
    let half : p * 2 / 2 ≡ p = omega arith in or_halves (p * 2) l ∙ rw half (omega arith)

and_double_one : (x q : ℕ) → bit_and x (q * 2 + 1) ≡ bit_and (x / 2) q * 2 + x % 2
and_double_one x q =
    let half : (q * 2 + 1) / 2 ≡ q = omega arith in and_halves x (q * 2 + 1) ∙ rw half (omega arith)

mod_double : (x m : ℕ) → 0 < m → x % (m * 2) ≡ x / 2 % m * 2 + x % 2
mod_double x m pos =
    let d = x / 2 / m in
    let r = x / 2 % m * 2 + x % 2 in
    let split : x ≡ r + m * 2 * d = omega (arith, div-add-mod (x / 2) m) in
    ap (λ t. t % (m * 2)) split
    ∙ add-mul-mod_self_left r (m * 2) d
    ∙ mod-eq_of_lt (omega (arith, mod-lt (x / 2) pos))

pow_pos : (k : ℕ) → 0 < 2 ^ k
pow_pos zero = omega arith
pow_pos (suc k) = omega (arith, pow-suc 2 k, pow_pos k)

-- `(h << k) | l` for an `l` of at most `k` bits.
pub or_shifted : (k h l : ℕ) → l < 2 ^ k → bit_or (h * 2 ^ k) l ≡ h * 2 ^ k + l
or_shifted zero h l fits =
    let none : l ≡ 0 = omega arith in
    rw none (omega (arith, or_zero_right (h * 1) (h * 1) (omega arith)))
or_shifted (suc k) h l fits =
    let double : h * 2 ^ suc k ≡ h * 2 ^ k * 2 =
      omega (arith, ap (λ (t : ℕ). h * t) (pow-suc 2 k)) in
    rw double
      (omega (arith, or_double (h * 2 ^ k) l, or_shifted k h (l / 2) (omega (arith, pow-suc 2 k))))

-- `x & (2^k - 1)`.
pub and_ones : (k x : ℕ) → bit_and x (2 ^ k - 1) ≡ x % 2 ^ k
and_ones zero x = omega (arith, and_zero_right x x)
and_ones (suc k) x =
    let odd : 2 ^ suc k - 1 ≡ (2 ^ k - 1) * 2 + 1 = omega (arith, pow-suc 2 k, pow_pos k) in
    rw (odd, pow-suc 2 k)
      (omega
        (arith, and_double_one x (2 ^ k - 1), and_ones k (x / 2), mod_double x (2 ^ k) (pow_pos k)))

-- A big-endian pair of bytes, `(hi << 8) | lo`.
pub or_bytes : (hi lo : ℕ) → lo < 256 → bit_or (hi * 256) lo ≡ hi * 256 + lo
or_bytes hi lo fits = or_shifted 8 hi lo fits

pub and_byte : (x : ℕ) → bit_and x 0xff ≡ x % 256
and_byte x = and_ones 8 x

-- Functions that agree below a bound, by evaluation at each number.
unfoldable pub agree_below : (ℕ → ℕ) → (ℕ → ℕ) → ℕ → Bool
agree_below f g zero = true
agree_below f g (suc n) = f n == g n && agree_below f g n

pub agree_below→eq : (f g : ℕ → ℕ) (n x : ℕ) → agree_below f g n ≡ true → x < n → f x ≡ g x
unfolding agree_below
agree_below→eq f g zero x h lt = absurd (omega arith)
agree_below→eq f g (suc n) x h lt = ground (arith, agree_below→eq f g n x)

-- The two top bits of a byte.
pub and_top_two : (x : ℕ) → x < 256 → bit_and x 0xc0 ≡ x / 64 * 64
unfolding agree_below
and_top_two x h = agree_below→eq (λ x. bit_and x 0xc0) (λ x. x / 64 * 64) 256 x refl h

pub and_low_six : (x : ℕ) → bit_and x 0x3f ≡ x % 64
and_low_six x = and_ones 6 x
