-- ===== src/Text/Decimal.antt =====
-- Numbers in texts: `str::parse` at an unsigned type, and `Display` of a number.
use rustbond.Prelude.{
  ℕ, zero, suc, ◌+◌, ◌-◌, ◌*◌, ◌/◌, ◌%◌, ◌≤◌, ◌<◌, ◌≡◌, refl, false, ◌&&◌, [], ◌∷◌, Option, none,
  some, arith, leb, ltb, ◌==◌, if◌then◌else◌, is_empty,
}
use rustbond.Text.{Text, has}

-- The digits, the first first; a number above `max` is an error.
unfoldable pub scan : ℕ → Text → ℕ → Option ℕ
scan max [] n = some n
scan max (c ∷ s) n =
    let m = n * 10 + (c - 48) in
    let rest = scan max s m in if leb 48 c && leb c 57 && leb m max then rest else none

-- Behind an optional `+`, at least one digit.
unfoldable pub parse_uint : ℕ → Text → Option ℕ
unfolding scan
parse_uint max [] = none
parse_uint max (c ∷ []) = scan max (c ∷ []) 0
parse_uint max (c ∷ d ∷ s) = if c == 43 then scan max (d ∷ s) 0 else scan max (c ∷ d ∷ s) 0

-- The digits of a number in front of a text. The fuel is to be more than the number.
unfoldable pub digits : ℕ → ℕ → Text → Text
digits zero n out = out
digits (suc k) n out =
    let more = digits k (n / 10) ((48 + n % 10) ∷ out) in if ltb n 10 then (48 + n) ∷ out else more

-- `n.to_string()`
unfoldable pub decimal : ℕ → Text
unfolding digits
decimal n = digits (suc n) n []

scan-digits :
    (max k n : ℕ) (out : Text) → n < k → n ≤ max → scan max (digits k n out) 0 ≡ scan max out n
unfolding scan digits
scan-digits max zero n out h fits = absurd (omega arith)
scan-digits max (suc k) n out h fits =
    ground (arith, scan-digits max k (n / 10) ((48 + n % 10) ∷ out))

-- All characters are digits.
has-digits : (c k n : ℕ) (out : Text) → c < 48 → has c out ≡ false → has c (digits k n out) ≡ false
unfolding digits
has-digits c zero n out small h = h
has-digits c (suc k) n out small h = ground (arith, has-digits c k (n / 10) ((48 + n % 10) ∷ out))

pub has-decimal : (c n : ℕ) → c < 48 → has c (decimal n) ≡ false
unfolding decimal
has-decimal c n small = has-digits c (suc n) n [] small refl

digits-nonempty : (k n : ℕ) (out : Text) → is_empty out ≡ false → is_empty (digits k n out) ≡ false
unfolding digits
digits-nonempty zero n out h = h
digits-nonempty (suc k) n out h = ground (arith, digits-nonempty k (n / 10) ((48 + n % 10) ∷ out))

decimal-nonempty : (n : ℕ) → is_empty (decimal n) ≡ false
unfolding decimal digits
decimal-nonempty n = ground (arith, digits-nonempty n (n / 10) ((48 + n % 10) ∷ []) refl)

parse-scan :
    (max : ℕ) (s : Text) → has 43 s ≡ false → is_empty s ≡ false → parse_uint max s ≡ scan max s 0
unfolding parse_uint
parse-scan max [] h nonempty = absurd (cc)
parse-scan max (c ∷ []) h nonempty = refl
parse-scan max (c ∷ d ∷ s) h nonempty = ground arith

-- A number within the range of the type is read back from its text.
pub parse_uint-decimal : (max n : ℕ) → n ≤ max → parse_uint max (decimal n) ≡ some n
unfolding decimal scan
parse_uint-decimal max n fits =
    let read = parse-scan max (decimal n) (has-decimal 43 n (omega arith)) (decimal-nonempty n) in
    rw (read, decimal) (scan-digits max (suc n) n [] (omega arith) fits)
