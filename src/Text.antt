-- ===== src/Text.antt =====
-- The string methods that the services use, on lists of code units.
pub mod Decimal
pub mod Same
use Prim.Native.Char.{code}
use Prim.Native.String.{String}
use ustabobo_bot.Base.{
  ℕ, zero, suc, ◌+◌, ◌-◌, ◌/◌, ◌%◌, Bool, true, false, not, ◌&&◌, ◌||◌, Option, none, some, [], ◌∷◌,
  ◌==◌, leb, ltb, if◌then◌else◌,
}
use ustabobo_bot.Schema.{Text}

-- the white space and line terminators that `trim` removes
unfoldable pub is_space : ℕ → Bool
is_space c =
    (leb 9 c && leb c 13)
    || c == 32
    || c == 0xa0
    || c == 0x1680
    || (leb 0x2000 c && leb c 0x200a)
    || c == 0x2028
    || c == 0x2029
    || c == 0x202f
    || c == 0x205f
    || c == 0x3000
    || c == 0xfeff

unfoldable pub trim_start : Text → Text
trim_start [] = []
trim_start (c ∷ s) = if is_space c then trim_start s else c ∷ s

abbrev is_nil : Text → Bool
is_nil [] = true
is_nil _ = false

unfoldable pub trim_end : Text → Text
trim_end [] = []
trim_end (c ∷ s) = let rest = trim_end s in if is_space c && is_nil rest then [] else c ∷ rest

-- `s.trim()`
unfoldable pub trim : Text → Text
unfolding is_space trim_start trim_end
trim s = trim_end (trim_start s)

-- `s.slice(0, n)`
unfoldable pub slice_to : ℕ → Text → Text
slice_to zero s = []
slice_to (suc n) [] = []
slice_to (suc n) (c ∷ s) = c ∷ slice_to n s

-- `s === t`
unfoldable pub same_text : Text → Text → Bool
same_text [] [] = true
same_text (c ∷ s) (d ∷ t) = c == d && same_text s t
same_text _ _ = false

-- a literal of the source
abbrev pub codes : String → Text
codes String.[] = []
codes (String.◌∷◌ c s) = code c ∷ codes s

-- `s.startsWith(p) ? s.slice(p.length) : null`, and the group of the pattern `^p(.*)$`
unfoldable pub strip_prefix : Text → Text → Option Text
strip_prefix [] s = some s
strip_prefix (c ∷ p) [] = none
strip_prefix (c ∷ p) (d ∷ s) = if c == d then strip_prefix p s else none

-- what `\d` matches
abbrev pub is_digit : ℕ → Bool
is_digit c = leb b'0' c && leb c b'9'

-- letters under the flag `i` of a pattern
unfoldable pub to_lower : Text → Text
to_lower [] = []
to_lower (c ∷ s) = (if leb b'A' c && leb c b'Z' then c + 32 else c) ∷ to_lower s

-- `replace(/\s+/g, "")`
unfoldable pub without_spaces : Text → Text
without_spaces [] = []
without_spaces (c ∷ s) = if is_space c then without_spaces s else c ∷ without_spaces s

-- `replace(/\s+/g, " ")`, and the flag says that the character before was a space
unfoldable pub squeeze : Bool → Text → Text
squeeze after [] = []
squeeze after (c ∷ s) =
    let rest = squeeze (is_space c) s in
    if not (is_space c) then c ∷ rest else if after then rest else 32 ∷ rest

-- a character as its code units in UTF-16
abbrev pub unit_pair : ℕ → Text → Text
unit_pair c s =
    if ltb c 0x10000
    then c ∷ s
    else (0xd800 + (c - 0x10000) / 0x400) ∷ (0xdc00 + (c - 0x10000) % 0x400) ∷ s

-- a literal of the source with characters outside the basic plane
abbrev pub units : String → Text
units String.[] = []
units (String.◌∷◌ c s) = unit_pair (code c) (units s)
