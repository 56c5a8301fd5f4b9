-- ===== src/Orders/Draft/Rows.antt =====
-- What a query by a list of ids finds, and when createDraft takes the ids for present.
use ustabobo_bot.Base.{
  ℕ, suc, ◌≤◌, ◌<◌, ◌≡◌, refl, Bool, true, false, ◌||◌, none, List, [], ◌∷◌, is_some, length,
  includes, All, arith, Bool-cases, Option-cases, inl, inr,
}
use ustabobo_bot.Base.Table.{Table, lookup, IsKeyed}
use ustabobo_bot.Orders.Draft.{rows_in, missing, distinct}

-- an id that stands twice in the list
unfoldable pub repeats : List ℕ → Bool
repeats [] = false
repeats (k ∷ ks) = includes k ks || repeats ks

module _ {ℓ} {A : Type ℓ} where
  rows_in_nil : (t : Table A) → rows_in [] t ≡ []
  unfolding rows_in
  rows_in_nil [] = refl
  rows_in_nil ((j, a) ∷ t) = rows_in_nil t

  rows_in-known :
      (k : ℕ) (ks : List ℕ) (t : Table A) → includes k ks ≡ true → rows_in (k ∷ ks) t ≡ rows_in ks t
  unfolding rows_in
  rows_in-known k ks [] h = refl
  rows_in-known k ks ((j, a) ∷ t) h = ground (arith, rows_in-known k ks t h)

  rows_in-absent :
      (k : ℕ) (ks : List ℕ) (t : Table A) → lookup k t ≡ none → rows_in (k ∷ ks) t ≡ rows_in ks t
  unfolding rows_in lookup
  rows_in-absent k ks [] h = refl
  rows_in-absent k ks ((j, a) ∷ t) h = ground (arith, rows_in-absent k ks t)

  rows_in-found :
      (k : ℕ) (ks : List ℕ) (t : Table A)
      → IsKeyed t
      → is_some (lookup k t) ≡ true
      → includes k ks ≡ false
      → length (rows_in (k ∷ ks) t) ≡ suc (length (rows_in ks t))
  unfolding rows_in lookup
  rows_in-found k ks [] keyed h new = cc
  rows_in-found k ks ((j, a) ∷ t) keyed h new =
      ground (arith, rows_in-found k ks t keyed.1, rows_in-absent k ks t)

  rows_in-step :
      (k : ℕ) (ks : List ℕ) (t : Table A)
      → IsKeyed t
      → length (rows_in (k ∷ ks) t) ≤ suc (length (rows_in ks t))
  rows_in-step k ks t keyed = elim (Bool-cases (includes k ks)) [
    | inl known ↦ rw (rows_in-known k ks t known) (omega arith)
    | inr new ↦ elim (Option-cases (lookup k t)) [
      | inl absent ↦ rw (rows_in-absent k ks t absent) (omega arith)
      | inr (a, found) ↦ omega (arith, rows_in-found k ks t keyed (rw found) new)
    ]
  ]

  length-rows_in : (ks : List ℕ) (t : Table A) → IsKeyed t → length (rows_in ks t) ≤ length ks
  length-rows_in [] t keyed = rw (rows_in_nil t) (omega arith)
  length-rows_in (k ∷ ks) t keyed =
      omega (arith, rows_in-step k ks t keyed, length-rows_in ks t keyed)

  -- A query never finds as many rows as it was given ids, if one of them was given twice.
  pub rows_in-repeats :
      (ks : List ℕ) (t : Table A)
      → IsKeyed t
      → repeats ks ≡ true
      → length (rows_in ks t) < length ks
  unfolding repeats
  rows_in-repeats [] t keyed h = cc
  rows_in-repeats (k ∷ ks) t keyed h = elim (Bool-cases (includes k ks)) [
    | inl known ↦ rw (rows_in-known k ks t known) (omega (arith, length-rows_in ks t keyed))
    | inr new ↦
        let later : repeats ks ≡ true = ground arith in
        omega (arith, rows_in-step k ks t keyed, rows_in-repeats ks t keyed later)
  ]

  -- It finds as many, if all are there and none was given twice.
  pub rows_in-all :
      (ks : List ℕ) (t : Table A)
      → IsKeyed t
      → repeats ks ≡ false
      → All (λ k. is_some (lookup k t) ≡ true) ks
      → length (rows_in ks t) ≡ length ks
  unfolding repeats
  rows_in-all [] t keyed once h = rw (rows_in_nil t)
  rows_in-all (k ∷ ks) t keyed once h =
      let new : includes k ks ≡ false = ground arith in
      let rest : repeats ks ≡ false = ground arith in
      omega (arith, rows_in-found k ks t keyed h.0 new, rows_in-all ks t keyed rest h.1)

  lookup-rows_in :
      (k : ℕ) (ks : List ℕ) (t : Table A)
      → includes k ks ≡ true
      → lookup k (rows_in ks t) ≡ lookup k t
  unfolding rows_in lookup
  lookup-rows_in k ks [] h = refl
  lookup-rows_in k ks ((j, a) ∷ t) h = ground (arith, lookup-rows_in k ks t h)

  nothing_missing :
      (ks all : List ℕ) (t : Table A)
      → All (λ k. includes k all ≡ true) ks
      → All (λ k. is_some (lookup k t) ≡ true) ks
      → missing (rows_in all t) ks ≡ []
  unfolding missing
  nothing_missing [] all t within h = refl
  nothing_missing (k ∷ ks) all t within h =
      ground (arith, lookup-rows_in k all t within.0, nothing_missing ks all t within.1 h.1)

All-map {ℓ κ} :
    {A : Type ℓ} (P Q : A → Type κ) → ((a : A) → P a → Q a) → (xs : List A) → All P xs → All Q xs
All-map P Q f [] h = tt
All-map P Q f (x ∷ xs) h = (f x h.0, All-map P Q f xs h.1)

All-distinct {κ} : (P : ℕ → Type κ) (ks : List ℕ) → All P ks → All P (distinct ks)
unfolding distinct
All-distinct P [] h = tt
All-distinct P (k ∷ ks) h = elim (Bool-cases (includes k ks)) [
  | inl known ↦ rw known (All-distinct P ks h.1)
  | inr new ↦ rw new (h.0, All-distinct P ks h.1)
]

All-includes : (ks : List ℕ) → All (λ k. includes k ks ≡ true) ks
All-includes [] = tt
All-includes (x ∷ xs) = (
  ground arith,
  All-map (λ k. includes k xs ≡ true) (λ k. includes k (x ∷ xs) ≡ true) (λ k h. ground arith) xs
      (All-includes xs),
)

-- No product is reported missing, if all are stored, however often each is asked for.
pub missing-distinct {ℓ} :
    {A : Type ℓ} (ids : List ℕ) (t : Table A)
    → All (λ k. is_some (lookup k t) ≡ true) ids
    → missing (rows_in ids t) (distinct ids) ≡ []
missing-distinct ids t h =
    nothing_missing (distinct ids) ids t
      (All-distinct (λ k. includes k ids ≡ true) ids (All-includes ids))
      (All-distinct (λ k. is_some (lookup k t) ≡ true) ids h)
