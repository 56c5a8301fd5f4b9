-- ===== src/Text/Decimal.antt =====
-- Numbers as decimal text: a number in a template literal, and `parseInt(s, 10)` of digits.
use ustabobo_bot.Base.{
  ℕ, zero, suc, ◌+◌, ◌-◌, ◌*◌, ◌/◌, ◌%◌, ◌<◌, ◌≡◌, true, [], ◌∷◌, ◌==◌, if◌then◌else◌, All, arith,
  length, Bool-cases, inl, inr,
}
use ustabobo_bot.Schema.{Text}
use ustabobo_bot.Text.{is_digit}

-- The digits of `n` in front of `acc`, the last one first; each step uses up a part of the fuel.
unfoldable pub digits_on : ℕ → ℕ → Text → Text
digits_on zero n acc = acc
digits_on (suc fuel) n acc =
    let rest = digits_on fuel (n / 10) ((b'0' + n % 10) ∷ acc) in
    if n / 10 == 0 then (b'0' + n % 10) ∷ acc else rest

-- `${n}`
unfoldable pub decimal : ℕ → Text
unfolding digits_on
decimal n = digits_on (suc n) n []

-- `parseInt(s, 10)` of a text of digits, behind the digits of `n`
unfoldable pub value_from : ℕ → Text → ℕ
value_from n [] = n
value_from n (c ∷ s) = value_from (n * 10 + (c - b'0')) s

unfoldable pub parse_int : Text → ℕ
unfolding value_from
parse_int s = value_from 0 s

value-digits_on :
    (fuel n : ℕ) (acc : Text) → n < fuel → value_from 0 (digits_on fuel n acc) ≡ value_from n acc
unfolding digits_on value_from
value-digits_on zero n acc enough = ground arith
value-digits_on (suc fuel) n acc enough =
    ground (arith, value-digits_on fuel (n / 10) ((b'0' + n % 10) ∷ acc))

AreDigits-digits_on :
    (fuel n : ℕ) (acc : Text)
    → All (λ c. is_digit c ≡ true) acc
    → All (λ c. is_digit c ≡ true) (digits_on fuel n acc)
unfolding digits_on
AreDigits-digits_on zero n acc h = h
AreDigits-digits_on (suc fuel) n acc h =
    let head : is_digit (b'0' + n % 10) ≡ true = ground arith in
    elim (Bool-cases (n / 10 == 0)) [
      | inl last ↦ rw last (head, h)
      | inr more ↦ rw more (AreDigits-digits_on fuel (n / 10) ((b'0' + n % 10) ∷ acc) (head, h))
    ]

-- What is printed is read back.
pub parse_int-decimal : (n : ℕ) → parse_int (decimal n) ≡ n
unfolding parse_int decimal value_from
parse_int-decimal n = ground (arith, value-digits_on (suc n) n [])

pub decimal-AreDigits : (n : ℕ) → All (λ c. is_digit c ≡ true) (decimal n)
unfolding decimal
decimal-AreDigits n = AreDigits-digits_on (suc n) n [] tt

digits_on-full : (fuel n : ℕ) (acc : Text) → 0 < length acc → 0 < length (digits_on fuel n acc)
unfolding digits_on
digits_on-full zero n acc h = h
digits_on-full (suc fuel) n acc h =
    ground (arith, digits_on-full fuel (n / 10) ((b'0' + n % 10) ∷ acc))

pub decimal-full : (n : ℕ) → 0 < length (decimal n)
unfolding decimal digits_on
decimal-full n = ground (arith, digits_on-full n (n / 10) ((b'0' + n % 10) ∷ []))
