-- ===== src/Text/Same.antt =====
-- Every text is `===` to itself.
use ustabobo_bot.Base.{◌≡◌, refl, true, [], ◌∷◌, arith}
use ustabobo_bot.Schema.{Text}
use ustabobo_bot.Text.{same_text}

pub same_text_refl : (s : Text) → same_text s s ≡ true
unfolding same_text
same_text_refl [] = refl
same_text_refl (c ∷ s) = ground (arith, same_text_refl s)
