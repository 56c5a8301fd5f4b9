-- ===== src/WebApp/NewOrder/Cart/Edits.antt =====
-- What one change makes of the lines of the cart.
use ustabobo_bot.Base.{
  ℕ, zero, suc, ◌<◌, ◌≢◌, ◌||◌, List, [], ◌∷◌, ◌++◌, ◌==◌, All, arith, Bool-cases, inl, inr,
}
use ustabobo_bot.Schema.{Text}
use ustabobo_bot.Text.{trim}
use ustabobo_bot.Orders.Draft.{ManualProductItemDto}
use ustabobo_bot.WebApp.NewOrder.{
  SelectedService, SelectedProduct, ServiceItem, ProductItem, plus_service, plus_product, remove_at,
  set_quantity, is_blank,
}
use ustabobo_bot.WebApp.NewOrder.Cart.{
  plus_manual, NoService, NoProduct, AreLines, AreProducts, IsManual,
}

plus_service-NoService :
    (s : ServiceItem) (id : ℕ) (xs : List SelectedService)
    → s.id ≢ id
    → NoService id xs
    → NoService id (plus_service s xs)
unfolding plus_service
plus_service-NoService s id [] other h = (other, tt)
plus_service-NoService s id (x ∷ xs) other h = elim (Bool-cases (x.id == s.id)) [
  | inl hit ↦ rw hit h
  | inr miss ↦ rw miss (h.0, plus_service-NoService s id xs other h.1)
]

pub plus_service-AreLines :
    (s : ServiceItem) (xs : List SelectedService) → AreLines xs → AreLines (plus_service s xs)
unfolding plus_service
plus_service-AreLines s [] h = (omega arith, tt, tt)
plus_service-AreLines s (x ∷ xs) h = elim (Bool-cases (x.id == s.id)) [
  | inl hit ↦ rw hit (omega arith, h.1, h.2)
  | inr miss ↦
      let other : s.id ≢ x.id = λ e. ground arith in
      rw miss (h.0, plus_service-NoService s x.id xs other h.1, plus_service-AreLines s xs h.2)
]

plus_product-NoProduct :
    (a : ProductItem) (n id : ℕ) (xs : List SelectedProduct)
    → a.id ≢ id
    → NoProduct id xs
    → NoProduct id (plus_product a n xs)
unfolding plus_product
plus_product-NoProduct a n id [] other h = (other, tt)
plus_product-NoProduct a n id (x ∷ xs) other h = elim (Bool-cases (x.product_id == a.id)) [
  | inl hit ↦ rw hit h
  | inr miss ↦ rw miss (h.0, plus_product-NoProduct a n id xs other h.1)
]

pub plus_product-AreProducts :
    (a : ProductItem) (n : ℕ) (xs : List SelectedProduct)
    → 0 < n
    → AreProducts xs
    → AreProducts (plus_product a n xs)
unfolding plus_product
plus_product-AreProducts a n [] some_of h = (some_of, tt, tt)
plus_product-AreProducts a n (x ∷ xs) some_of h = elim (Bool-cases (x.product_id == a.id)) [
  | inl hit ↦ rw hit (omega arith, h.1, h.2)
  | inr miss ↦
      let other : a.id ≢ x.product_id = λ e. ground arith in
      rw miss (
        h.0,
        plus_product-NoProduct a n x.product_id xs other h.1,
        plus_product-AreProducts a n xs some_of h.2,
      )
]

pub remove_at-All {ℓ κ} :
    {A : Type ℓ} (P : A → Type κ) (i : ℕ) (xs : List A) → All P xs → All P (remove_at i xs)
unfolding remove_at
remove_at-All P i [] h = tt
remove_at-All P zero (x ∷ xs) h = h.1
remove_at-All P (suc i) (x ∷ xs) h = (h.0, remove_at-All P i xs h.1)

pub remove_at-AreLines :
    (i : ℕ) (xs : List SelectedService) → AreLines xs → AreLines (remove_at i xs)
unfolding remove_at
remove_at-AreLines i [] h = tt
remove_at-AreLines zero (x ∷ xs) h = h.2
remove_at-AreLines (suc i) (x ∷ xs) h =
    (h.0, remove_at-All (λ s. s.id ≢ x.id) i xs h.1, remove_at-AreLines i xs h.2)

pub remove_at-AreProducts :
    (i : ℕ) (xs : List SelectedProduct) → AreProducts xs → AreProducts (remove_at i xs)
unfolding remove_at
remove_at-AreProducts i [] h = tt
remove_at-AreProducts zero (x ∷ xs) h = h.2
remove_at-AreProducts (suc i) (x ∷ xs) h =
    (h.0, remove_at-All (λ p. p.product_id ≢ x.product_id) i xs h.1, remove_at-AreProducts i xs h.2)

set_quantity-NoProduct :
    (i n id : ℕ) (xs : List SelectedProduct) → NoProduct id xs → NoProduct id (set_quantity i n xs)
unfolding set_quantity
set_quantity-NoProduct i n id [] h = tt
set_quantity-NoProduct zero n id (x ∷ xs) h = h
set_quantity-NoProduct (suc i) n id (x ∷ xs) h = (h.0, set_quantity-NoProduct i n id xs h.1)

pub set_quantity-AreProducts :
    (i n : ℕ) (xs : List SelectedProduct)
    → 0 < n
    → AreProducts xs
    → AreProducts (set_quantity i n xs)
unfolding set_quantity
set_quantity-AreProducts i n [] some_of h = tt
set_quantity-AreProducts zero n (x ∷ xs) some_of h = (some_of, h.1, h.2)
set_quantity-AreProducts (suc i) n (x ∷ xs) some_of h = (
  h.0,
  set_quantity-NoProduct i n x.product_id xs h.1,
  set_quantity-AreProducts i n xs some_of h.2,
)

append-IsManual :
    (m : ManualProductItemDto) (xs : List ManualProductItemDto)
    → IsManual m
    → All IsManual xs
    → All IsManual (xs ++ m ∷ [])
append-IsManual m [] good h = (good, tt)
append-IsManual m (x ∷ xs) good h = (h.0, append-IsManual m xs good h.1)

pub plus_manual-IsManual :
    (name : Text) (price quantity : ℕ) (xs : List ManualProductItemDto)
    → All IsManual xs
    → All IsManual (plus_manual name price quantity xs)
plus_manual-IsManual name price quantity xs h =
    elim (Bool-cases (is_blank name || price == 0 || quantity == 0)) [
      | inl refused ↦ rw refused h
      | inr added ↦ rw added (
          append-IsManual (record { name = trim name; price = price; quantity = quantity }) xs
            (ground arith, ground arith, ground arith) h)
    ]
