-- ===== src/WebApp/Validation/Plates.antt =====
-- Number plates: what the page shows, and what it accepts.
use ustabobo_bot.Base.{ℕ, ◌≡◌, refl, Bool, false, inl, inr, [], ◌∷◌, arith, Bool-cases, ap}
use ustabobo_bot.Schema.{Text}
use ustabobo_bot.Text.{trim, trim_start, trim_end, is_space, squeeze, without_spaces}
use ustabobo_bot.WebApp.Validation.{to_upper, upper_code, normalize_plate, is_valid_plate}

is_space-upper_code : (c : ℕ) → is_space (upper_code c) ≡ is_space c
unfolding is_space
is_space-upper_code c = ground arith

upper_code_upper : (c : ℕ) → upper_code (upper_code c) ≡ upper_code c
upper_code_upper c = ground arith

to_upper_upper : (s : Text) → to_upper (to_upper s) ≡ to_upper s
unfolding to_upper
to_upper_upper [] = refl
to_upper_upper (c ∷ s) = rw (upper_code_upper c, to_upper_upper s)

without_spaces-to_upper : (s : Text) → without_spaces (to_upper s) ≡ to_upper (without_spaces s)
unfolding without_spaces to_upper
without_spaces-to_upper [] = refl
without_spaces-to_upper (c ∷ s) = elim (Bool-cases (is_space c)) [
  | inl space ↦ rw (is_space-upper_code c, space) (without_spaces-to_upper s)
  | inr other ↦
      rw (is_space-upper_code c, other) (ap (λ t. upper_code c ∷ t) (without_spaces-to_upper s))
]

without_spaces-squeeze : (b : Bool) (s : Text) → without_spaces (squeeze b s) ≡ without_spaces s
unfolding without_spaces squeeze is_space
without_spaces-squeeze b [] = refl
without_spaces-squeeze b (c ∷ s) = ground (arith, without_spaces-squeeze (is_space c) s)

without_spaces-trim_start : (s : Text) → without_spaces (trim_start s) ≡ without_spaces s
unfolding without_spaces trim_start
without_spaces-trim_start [] = refl
without_spaces-trim_start (c ∷ s) = ground (arith, without_spaces-trim_start s)

without_spaces-trim_end : (s : Text) → without_spaces (trim_end s) ≡ without_spaces s
unfolding without_spaces trim_end
without_spaces-trim_end [] = refl
without_spaces-trim_end (c ∷ s) = ground (arith, without_spaces-trim_end s)

pub without_spaces-trim : (s : Text) → without_spaces (trim s) ≡ without_spaces s
unfolding trim
without_spaces-trim s = rw (without_spaces-trim_end (trim_start s)) (without_spaces-trim_start s)

-- what is left of a plate for the patterns
plain_lem : (s : Text) → without_spaces (to_upper (trim s)) ≡ to_upper (without_spaces s)
plain_lem s = rw (without_spaces-to_upper (trim s), without_spaces-trim s)

plain_normalized : (s : Text) → without_spaces (normalize_plate s) ≡ to_upper (without_spaces s)
unfolding normalize_plate
plain_normalized s = rw (
  without_spaces-to_upper (squeeze false (trim s)),
  without_spaces-squeeze false (trim s),
  without_spaces-trim s,
)

-- A plate is accepted as it was typed exactly if it is accepted after it was put into the form in
-- which the page shows and sends it.
pub is_valid_plate-normalize_plate :
    (s : Text) → is_valid_plate (normalize_plate s) ≡ is_valid_plate s
unfolding is_valid_plate
is_valid_plate-normalize_plate s = rw (
  plain_lem (normalize_plate s),
  plain_normalized s,
  to_upper_upper (without_spaces s),
  plain_lem s,
)
