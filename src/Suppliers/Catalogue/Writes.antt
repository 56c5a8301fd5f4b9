-- ===== src/Suppliers/Catalogue/Writes.antt =====
-- The calls that write products, deliveries and prices, and the rows that refer to a product.
use ustabobo_bot.Base.{
  ℕ, ◌≡◌, refl, true, false, ◌||◌, Option, none, some, ◌∷◌, ◌==◌, ltb, or_else, arith, inl, inr,
  Bool-cases, Option-cases, ◌+◌,
}
use ustabobo_bot.Base.Table.{Table, lookup, modify, lookup-cons}
use ustabobo_bot.Schema.{World, Env, Product, ProductPriceHistory}
use ustabobo_bot.Suppliers.{
  StockInDto, CreateProductDto, stock_in, create_product, purchase_of, has_supplier,
  is_active_supplier, new_product, either_of, created_note,
}
use ustabobo_bot.Suppliers.Prices.{
  UpdateProductDto, admin_update_product, edited, history_of, differs,
}
use ustabobo_bot.Suppliers.Catalogue.Links.{
  AreLinked, AreLinkedIn, IsRow, links, relinked, kept-AreLinkedIn, IsRow-modify,
}

module _ (env : Env) (id : ℕ) (w : World) (h : AreLinked w) where
  module _ (f : Product → Product) where
    modified-AreLinkedIn :
        AreLinkedIn (modify id f w.products, w.purchases, w.price_histories, w.order_items)
    modified-AreLinkedIn =
        kept-AreLinkedIn w.products (modify id f w.products) w.purchases w.price_histories
          w.order_items (λ j. IsRow-modify id j f w.products) h

  pub admin_update_product-AreLinked :
      (dto : UpdateProductDto) (user : Option ℕ)
      → AreLinked (admin_update_product env id dto user w).1
  unfolding admin_update_product
  admin_update_product-AreLinked dto user = elim (Option-cases (lookup id w.products)) [
    | inl absent ↦ relinked (admin_update_product env id dto user w).1 (links w) (ground arith) h
    | inr (p, found) ↦ elim (Bool-cases (has_supplier dto.supplier_id w)) [
      | inr unknown ↦ relinked (admin_update_product env id dto user w).1 (links w) (ground arith) h
      | inl known ↦
          let m = modified-AreLinkedIn (edited dto) in
          elim (Bool-cases
            (differs dto.cost_price p.cost_price || differs dto.sale_price p.sale_price)) [
              | inr same ↦
                  relinked (admin_update_product env id dto user w).1
                    (
                      modify id (edited dto) w.products,
                      w.purchases,
                      w.price_histories,
                      w.order_items,
                    )
                    (ground arith) m
              | inl changed ↦
                  relinked (admin_update_product env id dto user w).1
                    (
                      modify id (edited dto) w.products,
                      w.purchases,
                      (env.uuid 0, history_of id user (edited dto p)) ∷ w.price_histories,
                      w.order_items,
                    )
                    (ground arith)
                    (m.0, (IsRow-modify id id (edited dto) w.products (ground arith), m.1), m.2)
            ]
    ]
  ]

  module _ (dto : StockInDto) (user : Option ℕ) (p : Product) where
    abbrev restocked : Product → Product
    restocked q = record q {
      stock_count = p.stock_count + dto.quantity;
      cost_price = or_else dto.price_per_unit p.cost_price;
    }

    abbrev noted : ProductPriceHistory
    noted = record {
      product_id = id;
      cost_price = or_else dto.price_per_unit p.cost_price;
      sale_price = p.sale_price;
      changed_by_id = user;
      note = dto.note;
    }

    stocked-AreLinked : lookup id w.products ≡ some p → AreLinked (stock_in env id dto user w).1
    unfolding stock_in
    stocked-AreLinked found =
        let m = modified-AreLinkedIn restocked in
        let row = IsRow-modify id id restocked w.products (ground arith) in
        elim (Option-cases dto.supplier_id) [
          | inl nobody ↦
              relinked (stock_in env id dto user w).1
                (
                  modify id restocked w.products,
                  w.purchases,
                  (env.uuid 0, noted) ∷ w.price_histories,
                  w.order_items,
                )
                (rw (found, nobody) (ground arith)) (m.0, (row, m.1), m.2)
          | inr (s, his) ↦ elim (Bool-cases (is_active_supplier (lookup s w.suppliers))) [
            | inr refused ↦ relinked (stock_in env id dto user w).1 (links w) (ground arith) h
            | inl active ↦
                relinked (stock_in env id dto user w).1
                  (
                    modify id restocked w.products,
                    (
                      env.uuid 1,
                      purchase_of s id dto.quantity (or_else dto.price_per_unit p.cost_price)
                          env.now,
                    )
                        ∷ w.purchases,
                    (env.uuid 0, noted) ∷ w.price_histories,
                    w.order_items,
                  )
                  (rw (found, his, active) (ground arith)) ((row, m.0), (row, m.1), m.2)
          ]
        ]

  pub stock_in-AreLinked :
      (dto : StockInDto) (user : Option ℕ) → AreLinked (stock_in env id dto user w).1
  unfolding stock_in
  stock_in-AreLinked dto user = elim (Option-cases (lookup id w.products)) [
    | inl absent ↦ relinked (stock_in env id dto user w).1 (links w) (ground arith) h
    | inr (p, found) ↦ stocked-AreLinked dto user p found
  ]

  module _ (dto : CreateProductDto) (sale : ℕ) where
    abbrev priced : ProductPriceHistory
    priced = record {
      product_id = env.uuid 0;
      cost_price = dto.cost_price;
      sale_price = sale;
      changed_by_id = none;
      note = some created_note;
    }

    abbrev grown : Table Product
    grown = (env.uuid 0, new_product dto sale) ∷ w.products

    IsRow-grown : (j : ℕ) → IsRow w.products j → IsRow grown j
    IsRow-grown j there =
        ground (arith, lookup-cons (env.uuid 0) j (new_product dto sale) w.products)

    grown-IsRow : IsRow grown (env.uuid 0)
    grown-IsRow =
        ground (arith, lookup-cons (env.uuid 0) (env.uuid 0) (new_product dto sale) w.products)

    created-AreLinked :
        either_of dto.sale_price dto.selling_price ≡ some sale
        → sale == 0 ≡ false
        → has_supplier dto.supplier_id w ≡ true
        → AreLinked (create_product env dto w).1
    unfolding create_product
    created-AreLinked asked fair known =
        let m =
          kept-AreLinkedIn w.products grown w.purchases w.price_histories w.order_items IsRow-grown
            h in
        elim (Bool-cases (ltb 0 dto.stock_count)) [
          | inr empty ↦
              relinked (create_product env dto w).1
                (grown, w.purchases, (env.uuid 1, priced) ∷ w.price_histories, w.order_items)
                (rw (asked, fair, known, empty) refl) (m.0, (grown-IsRow, m.1), m.2)
          | inl full ↦ elim (Option-cases dto.supplier_id) [
            | inl nobody ↦
                relinked (create_product env dto w).1
                  (grown, w.purchases, (env.uuid 1, priced) ∷ w.price_histories, w.order_items)
                  (rw (asked, fair, known, full, nobody) refl) (m.0, (grown-IsRow, m.1), m.2)
            | inr (s, his) ↦
                relinked (create_product env dto w).1
                  (
                    grown,
                    (env.uuid 2, purchase_of s (env.uuid 0) dto.stock_count dto.cost_price env.now)
                        ∷ w.purchases,
                    (env.uuid 1, priced) ∷ w.price_histories,
                    w.order_items,
                  )
                  (rw (asked, fair, known, full, his) refl)
                  ((grown-IsRow, m.0), (grown-IsRow, m.1), m.2)
          ]
        ]

  pub create_product-AreLinked : (dto : CreateProductDto) → AreLinked (create_product env dto w).1
  unfolding create_product
  create_product-AreLinked dto = elim (Option-cases (either_of dto.sale_price dto.selling_price)) [
    | inl absent ↦ relinked (create_product env dto w).1 (links w) (ground arith) h
    | inr (sale, asked) ↦ elim (Bool-cases (sale == 0)) [
      | inl free ↦ relinked (create_product env dto w).1 (links w) (ground arith) h
      | inr fair ↦ elim (Bool-cases (has_supplier dto.supplier_id w)) [
        | inr unknown ↦ relinked (create_product env dto w).1 (links w) (ground arith) h
        | inl known ↦ created-AreLinked dto sale asked fair known
      ]
    ]
  ]
