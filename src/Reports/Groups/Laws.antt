-- ===== src/Reports/Groups/Laws.antt =====
-- The rows of a grouping share out what the elements bring, and each row has what its key brings.
use ustabobo_bot.Base.{
  ℕ, ◌+◌, ◌≡◌, refl, inl, inr, Bool, true, false, Option, none, some, List, [], ◌∷◌, sum_by, All,
  if◌then◌else◌, arith, Bool-cases, Option-cases,
}
use ustabobo_bot.Reports.Groups.{upsert, group_into, figure_at, values}

-- the test of the keys is an equality
pub record IsEquality {K : Type 0} (same : K → K → Bool) : Type 0 where
  pub reflexive : (k : K) → same k k ≡ true
  pub exact : (j k : K) → same j k ≡ true → j ≡ k

-- what an element brings to the whole, and to one key
module _ {K A : Type 0} (key : A → Option K) (δ : A → ℕ) where
  abbrev pub brings : A → ℕ
  brings a = elim (key a) [ none ↦ 0 | some _ ↦ δ a ]

abbrev pub brings_to : {K A : Type 0} → (K → K → Bool) → (A → Option K) → (A → ℕ) → K → A → ℕ
brings_to same key δ l a = elim (key a) [ none ↦ 0 | some k ↦ if same k l then δ a else 0 ]

sum_by-same :
    {A : Type 0} (f g : A → ℕ) (xs : List A) → All (λ a. f a ≡ g a) xs → sum_by f xs ≡ sum_by g xs
sum_by-same f g [] h = refl
sum_by-same f g (a ∷ xs) h = ground (arith, sum_by-same f g xs h.1)

module _ {K : Type 0} (same : K → K → Bool) where
  apart : IsEquality same → (j k l : K) → same j k ≡ false → same j l ≡ true → same k l ≡ false
  apart equality j k l differ first = elim (Bool-cases (same k l)) [
    | inr differs ↦ differs
    | inl second ↦
        let j_is_l = equality.exact j l first in
        let k_is_l = equality.exact k l second in let again = equality.reflexive l in cc
  ]

module _ {K V : Type 0} (same : K → K → Bool) where
  upsert-sum :
      (k : K) (fresh : V) (f : V → V) (g : V → ℕ) (n : ℕ) (rows : List (K × V))
      → g fresh ≡ 0
      → ((v : V) → g (f v) ≡ g v + n)
      → sum_by g (values (upsert same k fresh f rows)) ≡ sum_by g (values rows) + n
  unfolding upsert values
  upsert-sum k fresh f g n [] empty adds = ground (arith, adds fresh)
  upsert-sum k fresh f g n ((j, v) ∷ rest) empty adds =
      ground (arith, adds v, upsert-sum k fresh f g n rest empty adds)

  upsert-figure_at :
      (k : K) (fresh : V) (f : V → V) (g : V → ℕ) (n : ℕ) (rows : List (K × V)) (l : K)
      → IsEquality same
      → g fresh ≡ 0
      → ((v : V) → g (f v) ≡ g v + n)
      → figure_at same g l (upsert same k fresh f rows)
        ≡ figure_at same g l rows + (if same k l then n else 0)
  unfolding upsert figure_at
  upsert-figure_at k fresh f g n [] l equality empty adds = ground (arith, adds fresh)
  upsert-figure_at k fresh f g n ((j, v) ∷ rest) l equality empty adds =
      elim (Bool-cases (same j k)) [
        | inl hit ↦ let j_is_k = equality.exact j k hit in ground (arith, adds v)
        | inr miss ↦ ground (
          arith,
          upsert-figure_at k fresh f g n rest l equality empty adds,
          apart same equality j k l miss,
        )
      ]

  module _ {A : Type 0} (key : A → Option K) (fresh : A → V) (add : A → V → V) (g : V → ℕ)
      (δ : A → ℕ) (empty : (a : A) → g (fresh a) ≡ 0)
      (adds : (a : A) (v : V) → g (add a v) ≡ g v + δ a) where
    -- The rows share out what the elements with a key bring.
    group_into-sum :
        (xs : List A) (rows : List (K × V))
        → sum_by g (values (group_into same key fresh add xs rows))
          ≡ sum_by g (values rows) + sum_by (brings key δ) xs
    unfolding group_into
    group_into-sum [] rows = ground arith
    group_into-sum (a ∷ xs) rows = elim (Option-cases (key a)) [
      | inl skipped ↦ ground (arith, group_into-sum xs rows)
      | inr (k, kept) ↦ ground (
        arith,
        group_into-sum xs (upsert same k (fresh a) (add a) rows),
        upsert-sum k (fresh a) (add a) g (δ a) rows (empty a) (adds a),
      )
    ]

    pub group-sum :
        (xs : List A) (ε : A → ℕ)
        → All (λ a. brings key δ a ≡ ε a) xs
        → sum_by g (values (group_into same key fresh add xs [])) ≡ sum_by ε xs
    unfolding values
    group-sum xs ε h = ground (arith, group_into-sum xs [], sum_by-same (brings key δ) ε xs h)

    -- The row of a key has what the elements of that key bring.
    group_into-figure_at :
        (xs : List A) (rows : List (K × V)) (l : K)
        → IsEquality same
        → figure_at same g l (group_into same key fresh add xs rows)
          ≡ figure_at same g l rows + sum_by (brings_to same key δ l) xs
    unfolding group_into
    group_into-figure_at [] rows l equality = ground arith
    group_into-figure_at (a ∷ xs) rows l equality = elim (Option-cases (key a)) [
      | inl skipped ↦ ground (arith, group_into-figure_at xs rows l equality)
      | inr (k, kept) ↦ ground (
        arith,
        group_into-figure_at xs (upsert same k (fresh a) (add a) rows) l equality,
        upsert-figure_at k (fresh a) (add a) g (δ a) rows l equality (empty a) (adds a),
      )
    ]

    pub group-figure_at :
        (xs : List A) (l : K)
        → IsEquality same
        → figure_at same g l (group_into same key fresh add xs [])
          ≡ sum_by (brings_to same key δ l) xs
    unfolding figure_at
    group-figure_at xs l equality = ground (arith, group_into-figure_at xs [] l equality)
