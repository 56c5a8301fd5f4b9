-- ===== src/Base/Table.antt =====
-- A database table: rows under their primary key. The newest row stands first; the program
-- orders what it reads by a column, or does not depend on the order.
use ustabobo_bot.Base.Tests.{◌==◌, if◌then◌else◌, Bool-cases}
use mathlib.Core.Logic.{◌≢◌, inl, inr}
use Prim.Native.Nat.{ℕ}
use mathlib.Core.Path.{◌≡◌, refl, sym, subst}
use mathlib.Core.Bool.{Bool, true, false}
use mathlib.Core.Option
use mathlib.Core.Option.{Option, none, some}
use mathlib.Core.List.{List, [], ◌∷◌}
use native.Mathlib.Omega.{arith}

abbrev pub Table {ℓ} : Type ℓ → Type ℓ
Table A = List (ℕ × A)

module _ {ℓ} {A : Type ℓ} where
  -- `findUnique({ where: { id } })`
  unfoldable pub lookup : ℕ → Table A → Option A
  lookup k [] = none
  lookup k ((j, a) ∷ t) = if j == k then some a else lookup k t

  -- `update({ where: { id } })` on a row that is there
  unfoldable pub modify : ℕ → (A → A) → Table A → Table A
  modify k f [] = []
  modify k f ((j, a) ∷ t) = if j == k then (j, f a) ∷ t else (j, a) ∷ modify k f t

  -- `delete({ where: { id } })`
  unfoldable pub erase : ℕ → Table A → Table A
  erase k [] = []
  erase k ((j, a) ∷ t) = if j == k then t else (j, a) ∷ erase k t

  -- `findFirst({ where })` by a test on the columns
  unfoldable pub find_first : (A → Bool) → Table A → Option (ℕ × A)
  find_first p [] = none
  find_first p ((j, a) ∷ t) = if p a then some (j, a) else find_first p t

  -- `findMany({ where })`
  unfoldable pub find_many : (A → Bool) → Table A → Table A
  find_many p [] = []
  find_many p ((j, a) ∷ t) = let rest = find_many p t in if p a then (j, a) ∷ rest else rest

  pub lookup-cons :
      (k j : ℕ) (a : A) (t : Table A)
      → lookup j ((k, a) ∷ t) ≡ (if k == j then some a else lookup j t)
  unfolding lookup
  lookup-cons k j a t = refl

  pub lookup-modify :
      (k j : ℕ) (f : A → A) (t : Table A)
      → lookup j (modify k f t) ≡ (if k == j then Option.map f (lookup j t) else lookup j t)
  unfolding lookup modify
  lookup-modify k j f [] = ground arith
  lookup-modify k j f ((i, a) ∷ t) = ground (arith, lookup-modify k j f t)

  -- a primary key names one row
  abbrev pub IsKeyed : Table A → Type ℓ
  IsKeyed [] = Unit
  IsKeyed ((k, _) ∷ t) = (lookup k t ≡ none) × IsKeyed t

  pub find_first-test :
      (p : A → Bool) (t : Table A) (k : ℕ) (a : A) → find_first p t ≡ some (k, a) → p a ≡ true
  unfolding find_first
  find_first-test p [] k a h = cc
  find_first-test p ((j, b) ∷ t) k a h = ground (arith, find_first-test p t k a)

  pub find_first-none :
      (p : A → Bool) (t : Table A) (k : ℕ) (a : A)
      → find_first p t ≡ none
      → lookup k t ≡ some a
      → p a ≡ false
  unfolding find_first lookup
  find_first-none p [] k a h there = ground arith
  find_first-none p ((j, b) ∷ t) k a h there = ground (arith, find_first-none p t k a)

  -- What a query finds is the row under its key.
  pub find_first-lookup :
      (p : A → Bool) (t : Table A) (k : ℕ) (a : A)
      → IsKeyed t
      → find_first p t ≡ some (k, a)
      → lookup k t ≡ some a
  unfolding find_first lookup
  find_first-lookup p [] k a keyed h = cc
  find_first-lookup p ((j, b) ∷ t) k a keyed h = ground (arith, find_first-lookup p t k a keyed.1)

  -- A change that a query does not see leaves it with the changed row.
  pub find_first-modify :
      (p : A → Bool) (f : A → A) (t : Table A) (k : ℕ) (a : A)
      → ((b : A) → p (f b) ≡ p b)
      → IsKeyed t
      → find_first p t ≡ some (k, a)
      → find_first p (modify k f t) ≡ some (k, f a)
  unfolding find_first modify
  find_first-modify p f [] k a unseen keyed h = cc
  find_first-modify p f ((j, b) ∷ t) k a unseen keyed h = ground (
    arith,
    unseen b,
    find_first-lookup p t k a keyed.1,
    find_first-modify p f t k a unseen keyed.1,
  )

  pub modify-IsKeyed : (k : ℕ) (f : A → A) (t : Table A) → IsKeyed t → IsKeyed (modify k f t)
  unfolding modify lookup
  modify-IsKeyed k f [] h = tt
  modify-IsKeyed k f ((j, a) ∷ t) h =
      ground (arith, modify-IsKeyed k f t h.1, lookup-modify k j f t)

  -- a property of every row
  abbrev pub AllRows {κ} : (A → Type κ) → Table A → Type κ
  AllRows P [] = Unit
  AllRows P ((_, a) ∷ t) = P a × AllRows P t

  pub AllRows-lookup {κ} :
      (P : A → Type κ) (k : ℕ) (t : Table A) {a : A} → AllRows P t → lookup k t ≡ some a → P a
  unfolding lookup
  AllRows-lookup P k [] h e = cc
  AllRows-lookup P k ((j, b) ∷ t) {a} h e = elim (Bool-cases (j == k)) [
    | inl hit ↦ let b_is_a : b ≡ a = ground arith in subst P b_is_a h.0
    | inr miss ↦ AllRows-lookup P k t h.1 (ground arith)
  ]

  pub AllRows-modify {κ} :
      (P : A → Type κ) (k : ℕ) (f : A → A) (t : Table A) {a : A}
      → AllRows P t
      → lookup k t ≡ some a
      → (P a → P (f a))
      → AllRows P (modify k f t)
  unfolding lookup modify
  AllRows-modify P k f [] h e g = tt
  AllRows-modify P k f ((j, b) ∷ t) {a} h e g = elim (Bool-cases (j == k)) [
    | inl hit ↦
        let b_is_a : b ≡ a = ground arith in
        rw hit (subst (λ x. P x → P (f x)) (sym b_is_a) g h.0, h.1)
    | inr miss ↦ rw miss (h.0, AllRows-modify P k f t h.1 (ground arith) g)
  ]

  pub lookup-erase : (k j : ℕ) (t : Table A) → k ≢ j → lookup j (erase k t) ≡ lookup j t
  unfolding lookup erase
  lookup-erase k j [] h = refl
  lookup-erase k j ((i, a) ∷ t) h = ground (arith, lookup-erase k j t h)

  pub AllRows-map {κ μ} :
      {P : A → Type κ} {Q : A → Type μ}
      → ((a : A) → P a → Q a)
      → (t : Table A) → AllRows P t
      → AllRows Q t
  AllRows-map f [] h = tt
  AllRows-map f ((_, a) ∷ t) h = (f a h.0, AllRows-map f t h.1)
