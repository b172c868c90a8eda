-- ===== src/Tests/Numbers.antt =====
-- A reader of printed numbers, which can stand for `Number` and `parseInt`.
use qjs_lws.Base.{
  ℕ, zero, suc, ◌+◌, ◌-◌, ◌*◌, ◌/◌, ◌%◌, ◌<◌, ◌≡◌, Option, none, some, [], ◌∷◌, Text, leb, ltb,
  arith, if◌then◌else◌,
}
use qjs_lws.Text.{digit, radix_loop, number_text}
use qjs_lws.Text.Numbers.{JsNumbers}

abbrev pub digit_value : ℕ → ℕ
digit_value c = if leb c b'9' then c - b'0' else (c - b'a') + 10

pub read_digits : ℕ → ℕ → Text → ℕ
read_digits radix acc [] = acc
read_digits radix acc (c ∷ s) = read_digits radix (acc * radix + digit_value c) s

-- What the proof uses of a base.
abbrev pub IsBase : ℕ → Type 0
IsBase radix =
    (n : ℕ) → (n / radix * radix + n % radix ≡ n) × (n % radix < 16) × (0 < n → n / radix < n)

digit_value-digit : (d : ℕ) → d < 16 → digit_value (digit d) ≡ d
digit_value-digit d h = ground arith

read_digits-radix_loop :
    (fuel radix n : ℕ) (rest : Text)
    → IsBase radix
    → n < fuel
    → read_digits radix 0 (radix_loop fuel radix n rest) ≡ read_digits radix n rest
unfolding radix_loop read_digits
read_digits-radix_loop zero radix n rest base h = absurd (omega arith)
read_digits-radix_loop (suc fuel) radix n rest base h =
    let (whole, small, less) = base n in
    let same = digit_value-digit (n % radix) small in
    let ih = read_digits-radix_loop fuel radix (n / radix) (digit (n % radix) ∷ rest) base in
    ground (arith, ih)

decimal : IsBase 10
decimal n = (omega arith, omega arith, λ h. omega arith)

pub hexadecimal : IsBase 16
hexadecimal n = (omega arith, omega arith, λ h. omega arith)

pub read_digits-number_text :
    (radix n : ℕ) → IsBase radix → read_digits radix 0 (number_text radix n) ≡ n
unfolding number_text read_digits
read_digits-number_text radix n base = read_digits-radix_loop (suc n) radix n [] base (omega arith)

pub read_byte : Text → Option ℕ
read_byte s = let n = read_digits 10 0 s in if ltb n 256 then some n else none

pub read_byte-decimal : (n : ℕ) → n < 256 → read_byte (number_text 10 n) ≡ some n
unfolding read_byte
read_byte-decimal n h = rw (read_digits-number_text 10 n decimal) (ground arith)

abbrev pub js_numbers : JsNumbers
js_numbers = record {
  number_byte = read_byte;
  parse_hex = read_digits 16 0;
  number_byte-decimal = read_byte-decimal;
  parse_hex-number = λ n h. read_digits-number_text 16 n hexadecimal;
}
