-- ===== src/Reports/Groups.antt =====
-- The loops of the reports that fill a `Map`: a row to a key, in the order in which the keys are first
-- met.
pub mod Laws
use ustabobo_bot.Base.{ℕ, Bool, Option, none, some, List, [], ◌∷◌, if◌then◌else◌}

module _ {K V : Type 0} (same : K → K → Bool) where
  -- `if (!map.has(key)) map.set(key, fresh)`, then a change of the row under the key
  unfoldable pub upsert : K → V → (V → V) → List (K × V) → List (K × V)
  upsert k fresh f [] = (k, f fresh) ∷ []
  upsert k fresh f ((j, v) ∷ rest) =
      let later = upsert k fresh f rest in if same j k then (j, f v) ∷ rest else (j, v) ∷ later

  module _ {A : Type 0} (key : A → Option K) (fresh : A → V) (add : A → V → V) where
    -- the loop's body; an element without a key is skipped by `continue`
    abbrev pub group_step : Option K → A → List (K × V) → List (K × V)
    group_step none a rows = rows
    group_step (some k) a rows = upsert k (fresh a) (add a) rows

    unfoldable pub group_into : List A → List (K × V) → List (K × V)
    group_into [] rows = rows
    group_into (a ∷ rest) rows = group_into rest (group_step (key a) a rows)

  -- a figure of the row under a key
  unfoldable pub figure_at : (V → ℕ) → K → List (K × V) → ℕ
  figure_at g k [] = 0
  figure_at g k ((j, v) ∷ rest) = let later = figure_at g k rest in if same j k then g v else later

-- `[...map.values()]`
unfoldable pub values {ℓ} : {K V : Type ℓ} → List (K × V) → List V
values [] = []
values ((_, v) ∷ rest) = v ∷ values rest
