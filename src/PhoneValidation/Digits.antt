-- ===== src/PhoneValidation/Digits.antt =====
-- What a number that passes looks like.
use ustabobo_bot.Base.{
  ℕ, ◌≤◌, ◌≡◌, refl, inl, inr, true, false, [], ◌∷◌, length, All, arith, Bool-cases,
}
use ustabobo_bot.Schema.{Text}
use ustabobo_bot.Text.{is_digit, is_space, trim_start, trim_end, trim}
use ustabobo_bot.PhoneValidation.{Parameter, text, only_digits, string_of, transform}

abbrev pub AreDigits : Text → Type 0
AreDigits = All (λ c. is_digit c ≡ true)

only_digits-AreDigits : (s : Text) → AreDigits (only_digits s)
unfolding only_digits
only_digits-AreDigits [] = tt
only_digits-AreDigits (c ∷ s) = elim (Bool-cases (is_digit c)) [
  | inl digit ↦ rw digit (digit, only_digits-AreDigits s)
  | inr other ↦ rw other (only_digits-AreDigits s)
]

only_digits-same : (s : Text) → AreDigits s → only_digits s ≡ s
unfolding only_digits
only_digits-same [] h = refl
only_digits-same (c ∷ s) h = rw (h.0, only_digits-same s h.1) refl

digit-no_space : (c : ℕ) → is_digit c ≡ true → is_space c ≡ false
unfolding is_space
digit-no_space c h = ground arith

trim_end-digits : (s : Text) → AreDigits s → trim_end s ≡ s
unfolding trim_end
trim_end-digits [] h = refl
trim_end-digits (c ∷ s) h = ground (arith, digit-no_space c h.0, trim_end-digits s h.1)

trim_start-digits : (s : Text) → AreDigits s → trim_start s ≡ s
unfolding trim_start
trim_start-digits [] h = refl
trim_start-digits (c ∷ s) h = ground (arith, digit-no_space c h.0)

trim-digits : (s : Text) → AreDigits s → trim s ≡ s
unfolding trim
trim-digits s h = rw (trim_start-digits s h) (trim_end-digits s h)

transform-trim :
    (p : Parameter) (n : Text)
    → transform p ≡ inl n
    → (only_digits (trim (string_of p)) ≡ n) × (7 ≤ length n)
unfolding transform
transform-trim p n h = (ground arith, ground arith)

-- A number that passes is seven digits or more and nothing else, and it passes again unchanged.
pub transform-AreDigits :
    (p : Parameter) (n : Text)
    → transform p ≡ inl n
    → AreDigits n × (7 ≤ length n) × (transform (text n) ≡ inl n)
unfolding transform string_of
transform-AreDigits p n h =
    let (same_text, long) = transform-trim p n h in
    let digits : AreDigits n = rw⁻¹ same_text (only_digits-AreDigits (trim (string_of p))) in
    (digits, long, ground (arith, trim-digits n digits, only_digits-same n digits, long))
