-- ===== src/Users/Unique.antt =====
-- The unique columns of the accounts, and the changes of the table that respect them.
use ustabobo_bot.Base.{
  ℕ, ◌≡◌, ◌≢◌, refl, inl, inr, Bool, false, none, some, [], ◌∷◌, ◌==◌, arith, Option-cases,
}
use ustabobo_bot.Base.Table.{
  Table, lookup, modify, find_first, lookup-modify, lookup-cons, find_first-none,
}
use ustabobo_bot.Schema.{World, Text, User}
use ustabobo_bot.Text.{same_text}
use ustabobo_bot.Text.Same.{same_text_refl}
use ustabobo_bot.Users.{has_phone, has_login, held_elsewhere}

-- a column tells the rows apart
abbrev pub IsUniqueBy : (User → Text) → Table User → Type 0
IsUniqueBy column t =
    (j k : ℕ) (u v : User) → lookup j t ≡ some u → lookup k t ≡ some v → column u ≡ column v → j ≡ k

pub record AreUnique (w : World) : Type 0 where
  pub phones : IsUniqueBy (λ u. u.phone) w.users
  pub logins : IsUniqueBy (λ u. u.login) w.users

module _ (column : User → Text) where
  abbrev pub has : Text → User → Bool
  has value u = same_text value (column u)

  differs :
      (value : Text) (t : Table User) (k : ℕ) (v : User)
      → find_first (has value) t ≡ none
      → lookup k t ≡ some v
      → value ≢ column v
  differs value t k v untaken there same_value =
      let no_match = find_first-none (has value) t k v untaken there in
      ground (arith, same_text_refl value)

  cons-IsUniqueBy :
      (id : ℕ) (a : User) (t : Table User)
      → find_first (has (column a)) t ≡ none
      → IsUniqueBy column t
      → IsUniqueBy column ((id, a) ∷ t)
  cons-IsUniqueBy id a t untaken unique j k u v at_j at_k same_value = ground (
    arith,
    lookup-cons id j a t,
    lookup-cons id k a t,
    unique j k u v,
    differs (column a) t j u untaken,
    differs (column a) t k v untaken,
  )

  elsewhere :
      (value : Text) (id : ℕ) (t : Table User) (k : ℕ) (v : User)
      → held_elsewhere (has value) id t ≡ false
      → lookup k t ≡ some v
      → (k == id) ≡ false
      → value ≢ column v
  unfolding held_elsewhere lookup
  elsewhere value id [] k v free there other same_value = ground arith
  elsewhere value id ((j, b) ∷ t) k v free there other same_value =
      ground (arith, elsewhere value id t k v, same_text_refl value)

  modify-IsUniqueBy :
      (id : ℕ) (a : User) (t : Table User)
      → held_elsewhere (has (column a)) id t ≡ false
      → IsUniqueBy column t
      → IsUniqueBy column (modify id (λ _. a) t)
  modify-IsUniqueBy id a t free unique j k u v at_j at_k same_value =
      elim (Option-cases (lookup j t)) [
        | inl gone ↦ ground (arith, lookup-modify id j (λ _. a) t)
        | inr (u', was_j) ↦ elim (Option-cases (lookup k t)) [
          | inl gone ↦ ground (arith, lookup-modify id k (λ _. a) t)
          | inr (v', was_k) ↦ ground (
            arith,
            lookup-modify id j (λ _. a) t,
            lookup-modify id k (λ _. a) t,
            unique j k u v,
            elsewhere (column a) id t j u free,
            elsewhere (column a) id t k v free,
          )
        ]
      ]

-- what a call does to the accounts
pub data AccountChange (w w' : World) : Type 0 where
  same : w'.users ≡ w.users → AccountChange w w'
  added :
      (id : ℕ) (a : User)
      → find_first (has_phone a.phone) w.users ≡ none
      → find_first (has_login a.login) w.users ≡ none
      → w'.users ≡ (id, a) ∷ w.users
      → AccountChange w w'
  edited :
      (id : ℕ) (a : User)
      → held_elsewhere (has_phone a.phone) id w.users ≡ false
      → held_elsewhere (has_login a.login) id w.users ≡ false
      → w'.users ≡ modify id (λ _. a) w.users
      → AccountChange w w'
  switched :
      (id : ℕ) (b : Bool)
      → w'.users ≡ modify id (λ u. record u { is_active = b }) w.users
      → AccountChange w w'

switched-IsUniqueBy :
    (column : User → Text) (id : ℕ) (b : Bool) (t : Table User)
    → ((u : User) → column (record u { is_active = b }) ≡ column u)
    → IsUniqueBy column t
    → IsUniqueBy column (modify id (λ u. record u { is_active = b }) t)
switched-IsUniqueBy column id b t kept unique j k u v at_j at_k same_value =
    elim (Option-cases (lookup j t)) [
      | inl gone ↦ ground (arith, lookup-modify id j (λ (x : User). record x { is_active = b }) t)
      | inr (u', was_j) ↦ elim (Option-cases (lookup k t)) [
        | inl gone ↦ ground (arith, lookup-modify id k (λ (x : User). record x { is_active = b }) t)
        | inr (v', was_k) ↦ ground (
          arith,
          lookup-modify id j (λ (x : User). record x { is_active = b }) t,
          lookup-modify id k (λ (x : User). record x { is_active = b }) t,
          unique j k u' v' was_j was_k,
          kept u',
          kept v',
        )
      ]
    ]

pub AccountChange-AreUnique : (w w' : World) → AccountChange w w' → AreUnique w → AreUnique w'
AccountChange-AreUnique w w' (same e) h = record { phones = rw e h.phones; logins = rw e h.logins }
AccountChange-AreUnique w w' (added id a no_phone no_login e) h = record {
  phones = rw e (cons-IsUniqueBy (λ u. u.phone) id a w.users no_phone h.phones);
  logins = rw e (cons-IsUniqueBy (λ u. u.login) id a w.users no_login h.logins);
}
AccountChange-AreUnique w w' (edited id a free_phone free_login e) h = record {
  phones = rw e (modify-IsUniqueBy (λ u. u.phone) id a w.users free_phone h.phones);
  logins = rw e (modify-IsUniqueBy (λ u. u.login) id a w.users free_login h.logins);
}
AccountChange-AreUnique w w' (switched id b e) h = record {
  phones = rw e (switched-IsUniqueBy (λ u. u.phone) id b w.users (λ u. refl) h.phones);
  logins = rw e (switched-IsUniqueBy (λ u. u.login) id b w.users (λ u. refl) h.logins);
}
