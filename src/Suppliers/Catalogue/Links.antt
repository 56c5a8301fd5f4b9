-- ===== src/Suppliers/Catalogue/Links.antt =====
-- The calls on products and suppliers, and the rows that refer to a product.
use ustabobo_bot.Base.{
  ℕ, ◌≡◌, ◌≢◌, true, false, Option, none, some, [], ◌∷◌, ◌==◌, holds, is_some, not, arith, inl, inr,
  Bool-cases, Option-cases, subst, sym,
}
use ustabobo_bot.Base.Table.{
  Table, lookup, modify, erase, AllRows, AllRows-map, lookup-modify, lookup-erase,
}
use ustabobo_bot.Schema.{World, Product, ProductPriceHistory, SupplierPurchase, OrderItem}
use ustabobo_bot.Suppliers.Catalogue.{
  toggle_product_active, has_purchases, without_histories, unlink_items, delete_product,
}

abbrev pub IsRow : Table Product → ℕ → Type 0
IsRow ps j = is_some (lookup j ps) ≡ true

abbrev pub IsRowIfAny : Table Product → Option ℕ → Type 0
IsRowIfAny ps none = Unit
IsRowIfAny ps (some j) = IsRow ps j

-- the tables that a product's id connects
abbrev pub Links : Type 0
Links = Table Product × Table SupplierPurchase × Table ProductPriceHistory × Table OrderItem

abbrev pub links : World → Links
links w = (w.products, w.purchases, w.price_histories, w.order_items)

-- every purchase, every price and every item of an order refers to a product that is there
abbrev pub AreLinkedIn : Links → Type 0
AreLinkedIn (ps, bs, hs, items) =
    AllRows (λ (b : SupplierPurchase). IsRow ps b.product_id) bs
    × AllRows (λ (h : ProductPriceHistory). IsRow ps h.product_id) hs
    × AllRows (λ (i : OrderItem). IsRowIfAny ps i.product_id) items

abbrev pub AreLinked : World → Type 0
AreLinked w = AreLinkedIn (links w)

pub relinked : (w : World) (l : Links) → links w ≡ l → AreLinkedIn l → AreLinked w
relinked w l e h = subst AreLinkedIn (sym e) h

IsRowIfAny-map :
    (ps qs : Table Product)
    → ((j : ℕ) → IsRow ps j → IsRow qs j)
    → (o : Option ℕ) → IsRowIfAny ps o
    → IsRowIfAny qs o
IsRowIfAny-map ps qs kept none h = tt
IsRowIfAny-map ps qs kept (some j) h = kept j h

-- a change of the products that leaves every id in place
pub kept-AreLinkedIn :
    (ps qs : Table Product) (bs : Table SupplierPurchase) (hs : Table ProductPriceHistory)
    (items : Table OrderItem)
    → ((j : ℕ) → IsRow ps j → IsRow qs j)
    → AreLinkedIn (ps, bs, hs, items)
    → AreLinkedIn (qs, bs, hs, items)
kept-AreLinkedIn ps qs bs hs items kept h = (
  AllRows-map (λ b. kept b.product_id) bs h.0,
  AllRows-map (λ x. kept x.product_id) hs h.1,
  AllRows-map (λ i. IsRowIfAny-map ps qs kept i.product_id) items h.2,
)

pub IsRow-modify :
    (k j : ℕ) (f : Product → Product) (ps : Table Product) → IsRow ps j → IsRow (modify k f ps) j
IsRow-modify k j f ps h = ground (arith, lookup-modify k j f ps)

module _ (id : ℕ) where
  apart-IsRow : (j : ℕ) (ps : Table Product) → id ≢ j → IsRow ps j → IsRow (erase id ps) j
  apart-IsRow j ps apart h = rw (lookup-erase id j ps apart) h

  erased-purchases :
      (ps : Table Product) (bs : Table SupplierPurchase)
      → has_purchases id bs ≡ false
      → AllRows (λ (b : SupplierPurchase). IsRow ps b.product_id) bs
      → AllRows (λ (b : SupplierPurchase). IsRow (erase id ps) b.product_id) bs
  unfolding has_purchases
  erased-purchases ps [] none_left h = tt
  erased-purchases ps ((k, b) ∷ bs) none_left h =
      (apart-IsRow b.product_id ps (ground arith) h.0, erased-purchases ps bs (ground arith) h.1)

  erased-histories :
      (ps : Table Product) (hs : Table ProductPriceHistory)
      → AllRows (λ (x : ProductPriceHistory). IsRow ps x.product_id) hs
      → AllRows
          (λ (x : ProductPriceHistory). IsRow (erase id ps) x.product_id)
          (without_histories id hs)
  unfolding without_histories
  erased-histories ps [] h = tt
  erased-histories ps ((k, x) ∷ hs) h = elim (Bool-cases (x.product_id == id)) [
    | inl his ↦ rw his (erased-histories ps hs h.1)
    | inr other ↦
        rw other (apart-IsRow x.product_id ps (ground arith) h.0, erased-histories ps hs h.1)
  ]

  erased-link :
      (ps : Table Product) (o : Option ℕ)
      → holds id o ≡ false
      → IsRowIfAny ps o
      → IsRowIfAny (erase id ps) o
  erased-link ps none other h = tt
  erased-link ps (some j) other h = apart-IsRow j ps (ground arith) h

  erased-items :
      (ps : Table Product) (items : Table OrderItem)
      → AllRows (λ (i : OrderItem). IsRowIfAny ps i.product_id) items
      → AllRows (λ (i : OrderItem). IsRowIfAny (erase id ps) i.product_id) (unlink_items id items)
  unfolding unlink_items
  erased-items ps [] h = tt
  erased-items ps ((k, i) ∷ items) h = elim (Bool-cases (holds id i.product_id)) [
    | inl his ↦ rw his (tt, erased-items ps items h.1)
    | inr other ↦ rw other (erased-link ps i.product_id other h.0, erased-items ps items h.1)
  ]

  pub delete_product-AreLinked : (w : World) → AreLinked w → AreLinked (delete_product id w).1
  unfolding delete_product
  delete_product-AreLinked w h = elim (Option-cases (lookup id w.products)) [
    | inl absent ↦ relinked (delete_product id w).1 (links w) (ground arith) h
    | inr (p, found) ↦ elim (Bool-cases (has_purchases id w.purchases)) [
      | inl bought ↦ relinked (delete_product id w).1 (links w) (ground arith) h
      | inr free ↦
          relinked (delete_product id w).1
            (
              erase id w.products,
              w.purchases,
              without_histories id w.price_histories,
              unlink_items id w.order_items,
            )
            (ground arith)
            (
              erased-purchases w.products w.purchases free h.0,
              erased-histories w.products w.price_histories h.1,
              erased-items w.products w.order_items h.2,
            )
    ]
  ]

  pub toggle_product_active-AreLinked :
      (w : World) → AreLinked w → AreLinked (toggle_product_active id w).1
  unfolding toggle_product_active
  toggle_product_active-AreLinked w h = elim (Option-cases (lookup id w.products)) [
    | inl absent ↦ relinked (toggle_product_active id w).1 (links w) (ground arith) h
    | inr (p, found) ↦
        let switch = λ (q : Product). record q { is_active = not p.is_active } in
        relinked (toggle_product_active id w).1
          (modify id switch w.products, w.purchases, w.price_histories, w.order_items)
          (ground arith)
          (kept-AreLinkedIn w.products (modify id switch w.products) w.purchases w.price_histories
            w.order_items (λ j. IsRow-modify id j switch w.products) h)
  ]
