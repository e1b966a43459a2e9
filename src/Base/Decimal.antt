-- ===== src/Base/Decimal.antt =====
-- Decimal notation as Python's `str(n)`, `str.isdigit` and `int(s)` have it on ASCII text.
use logline.Base.{
  ℕ, zero, suc, ◌+◌, ◌-◌, ◌*◌, ◌/◌, ◌%◌, ◌^◌, ◌≤◌, ◌<◌, ◌≡◌, refl, Bool, true, false, ◌&&◌, Option,
  none, some, [], ◌∷◌, arith, ltb, leb, if◌then◌else◌, length, all, Text, codes,
}
use native.Mathlib.Nat.{pow-suc}

unfoldable pub is_digit : ℕ → Bool
is_digit c = leb b'0' c && leb c b'9'

-- `s.isdigit()`: false on the empty text.
unfoldable pub isdigit : Text → Bool
unfolding is_digit
isdigit [] = false
isdigit (c ∷ s) = all is_digit (c ∷ s)

emit : ℕ → ℕ → Text → Text
emit zero n out = out
emit (suc fuel) n out =
    let rest = emit fuel (n / 10) ((b'0' + n % 10) ∷ out) in
    if ltb n 10 then (b'0' + n) ∷ out else rest

-- `str(n)`: the number of digits is at most `n + 1`, which is the fuel.
unfoldable pub format : ℕ → Text
unfolding emit
format n = emit (suc n) n []

read_from : ℕ → Text → ℕ
read_from acc [] = acc
read_from acc (c ∷ s) = read_from (acc * 10 + (c - b'0')) s

-- CPython refuses to convert longer texts.
abbrev pub int_max_str_digits : ℕ
int_max_str_digits = 4300

-- `int(s)` of a text that `isdigit` accepts; none where it raises `ValueError`.
unfoldable pub int_of : Text → Option ℕ
unfolding read_from
int_of s = if leb (length s) int_max_str_digits then some (read_from 0 s) else none

read_from-emit :
    (fuel n : ℕ) (out : Text) → n < fuel → read_from 0 (emit fuel n out) ≡ read_from n out
unfolding emit read_from
read_from-emit zero n out h = absurd (omega arith)
read_from-emit (suc fuel) n out h =
    ground (arith, read_from-emit fuel (n / 10) ((b'0' + n % 10) ∷ out))

all-emit :
    (fuel n : ℕ) (out : Text) → all is_digit out ≡ true → all is_digit (emit fuel n out) ≡ true
unfolding emit is_digit
all-emit zero n out h = h
all-emit (suc fuel) n out h = ground (arith, all-emit fuel (n / 10) ((b'0' + n % 10) ∷ out))

length-emit :
    (fuel n k : ℕ) (out : Text) → n < 10 ^ suc k → length (emit fuel n out) ≤ suc k + length out
unfolding emit
length-emit zero n k out h = omega arith
length-emit (suc fuel) n zero out h = ground arith
length-emit (suc fuel) n (suc k) out h =
    ground (arith, pow-suc 10 (suc k), length-emit fuel (n / 10) k ((b'0' + n % 10) ∷ out))

emit-cons : (fuel n : ℕ) (out : Text) → 0 < length out → 0 < length (emit fuel n out)
unfolding emit
emit-cons zero n out h = h
emit-cons (suc fuel) n out h = ground (arith, emit-cons fuel (n / 10) ((b'0' + n % 10) ∷ out))

pub format-ne-nil : (n : ℕ) → 0 < length (format n)
unfolding format
format-ne-nil n = ground (arith, emit-cons n (n / 10) ((b'0' + n % 10) ∷ []))

pub all-format : (n : ℕ) → all is_digit (format n) ≡ true
unfolding format
all-format n = all-emit (suc n) n [] refl

pub isdigit_of_all : (s : Text) → 0 < length s → all is_digit s ≡ true → isdigit s ≡ true
unfolding isdigit
isdigit_of_all [] h e = absurd (omega arith)
isdigit_of_all (c ∷ s) h e = e

-- A formatted number is accepted by `isdigit`.
pub isdigit-format : (n : ℕ) → isdigit (format n) ≡ true
isdigit-format n = isdigit_of_all (format n) (format-ne-nil n) (all-format n)

pub length-format : (n k : ℕ) → n < 10 ^ suc k → length (format n) ≤ suc k
unfolding format
length-format n k h = omega (arith, length-emit (suc n) n k [] h)

read_from-format : (n : ℕ) → read_from 0 (format n) ≡ n
unfolding format read_from
read_from-format n = read_from-emit (suc n) n [] (omega arith)

-- Reading a formatted number gives it back, below the limit of the conversion.
pub int_of-format : (n : ℕ) → n < 10 ^ 4300 → int_of (format n) ≡ some n
unfolding int_of
int_of-format n h = ground (arith, length-format n 4299 h, read_from-format n)

format-2026 : format 2026 ≡ codes "2026"
unfolding format
format-2026 = refl
