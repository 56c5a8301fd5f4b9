-- ===== src/Suppliers/Catalogue/Calls.antt =====
-- src/admin/admin.service.ts and src/products/products.service.ts: the calls on products and
-- suppliers, over every sequence of them.
use ustabobo_bot.Base.{ℕ, ◌≡◌, Option, List, [], ◌∷◌, arith, inl, inr, Option-cases}
use ustabobo_bot.Base.Table.{lookup, modify, lookup-cons}
use ustabobo_bot.Schema.{World, Env, Text, Product}
use ustabobo_bot.Suppliers.{
  StockInDto, CreateProductDto, stock_in, create_product, record_supplier_payment,
}
use ustabobo_bot.Suppliers.Prices.{UpdateProductDto, admin_update_product}
use ustabobo_bot.Suppliers.Catalogue.{
  toggle_product_active, delete_product, create_supplier, UpdateSupplierDto, update_supplier,
}
use ustabobo_bot.Suppliers.Catalogue.Links.{
  AreLinked, AreLinkedIn, links, relinked, kept-AreLinkedIn, IsRow-modify, delete_product-AreLinked,
  toggle_product_active-AreLinked,
}
use ustabobo_bot.Suppliers.Catalogue.Writes.{
  admin_update_product-AreLinked, stock_in-AreLinked, create_product-AreLinked,
}
use ustabobo_bot.Products
use ustabobo_bot.Products.{create_plain, update_plain, remove_product, product_of, changed_product}

entered-AreLinked :
    (k : ℕ) (p : Product) (w : World)
    → AreLinked w
    → AreLinkedIn ((k, p) ∷ w.products, w.purchases, w.price_histories, w.order_items)
entered-AreLinked k p w h =
    kept-AreLinkedIn w.products ((k, p) ∷ w.products) w.purchases w.price_histories w.order_items
      (λ j there. ground (arith, lookup-cons k j p w.products)) h

module _ (id : ℕ) where
  update_plain-AreLinked :
      (dto : Products.UpdateProductDto) (w : World)
      → AreLinked w
      → AreLinked (update_plain id dto w).1
  unfolding update_plain
  update_plain-AreLinked dto w h = elim (Option-cases (lookup id w.products)) [
    | inl absent ↦ relinked (update_plain id dto w).1 (links w) (ground arith) h
    | inr (p, found) ↦
        let ps = modify id (changed_product dto) w.products in
        relinked (update_plain id dto w).1 (ps, w.purchases, w.price_histories, w.order_items)
          (ground arith)
          (kept-AreLinkedIn w.products ps w.purchases w.price_histories w.order_items
            (λ j. IsRow-modify id j (changed_product dto) w.products) h)
  ]

  remove_product-delete_product : (w : World) → (remove_product id w).1 ≡ (delete_product id w).1
  unfolding remove_product delete_product
  remove_product-delete_product w = elim (Option-cases (lookup id w.products)) [
    | inl absent ↦ ground arith
    | inr (p, found) ↦ ground arith
  ]

  remove_product-AreLinked : (w : World) → AreLinked w → AreLinked (remove_product id w).1
  remove_product-AreLinked w h =
      rw (remove_product-delete_product w) (delete_product-AreLinked id w h)

-- the calls on products and suppliers
pub data CatalogueCall : Type 0 where
  create : Env → CreateProductDto → CatalogueCall
  update : Env → ℕ → UpdateProductDto → Option ℕ → CatalogueCall
  deliver : Env → ℕ → StockInDto → Option ℕ → CatalogueCall
  create_by_products_api : Env → Products.CreateProductDto → CatalogueCall
  update_by_products_api : ℕ → Products.UpdateProductDto → CatalogueCall
  toggle delete remove : ℕ → CatalogueCall
  enter_supplier : Env → Text → CatalogueCall
  change_supplier : ℕ → UpdateSupplierDto → CatalogueCall
  pay : Env → Option ℕ → ℕ → ℕ → Option Text → CatalogueCall

-- the state after a call, whether it returned or threw
unfoldable pub deal : CatalogueCall → World → World
deal (create env dto) w = (create_product env dto w).1
deal (update env id dto user) w = (admin_update_product env id dto user w).1
deal (deliver env id dto user) w = (stock_in env id dto user w).1
deal (create_by_products_api env dto) w = (create_plain env dto w).1
deal (update_by_products_api id dto) w = (update_plain id dto w).1
deal (remove id) w = (remove_product id w).1
deal (toggle id) w = (toggle_product_active id w).1
deal (delete id) w = (delete_product id w).1
deal (enter_supplier env fullname) w = (create_supplier env fullname w).1
deal (change_supplier id dto) w = (update_supplier id dto w).1
deal (pay env user supplier amount memo) w =
    (record_supplier_payment env user supplier amount memo w).1

unfoldable pub deal_all : List CatalogueCall → World → World
deal_all [] w = w
deal_all (c ∷ rest) w = deal_all rest (deal c w)

deal-AreLinked : (c : CatalogueCall) (w : World) → AreLinked w → AreLinked (deal c w)
unfolding deal create_plain create_supplier update_supplier record_supplier_payment
deal-AreLinked (create env dto) w h = create_product-AreLinked env 0 w h dto
deal-AreLinked (update env id dto user) w h = admin_update_product-AreLinked env id w h dto user
deal-AreLinked (deliver env id dto user) w h = stock_in-AreLinked env id w h dto user
deal-AreLinked (create_by_products_api env dto) w h =
    entered-AreLinked (env.uuid 0) (product_of dto) w h
deal-AreLinked (update_by_products_api id dto) w h = update_plain-AreLinked id dto w h
deal-AreLinked (remove id) w h = remove_product-AreLinked id w h
deal-AreLinked (toggle id) w h = toggle_product_active-AreLinked id w h
deal-AreLinked (delete id) w h = delete_product-AreLinked id w h
deal-AreLinked (enter_supplier env fullname) w h = h
deal-AreLinked (change_supplier id dto) w h =
    relinked (update_supplier id dto w).1 (links w) (ground arith) h
deal-AreLinked (pay env user supplier amount memo) w h =
    relinked (record_supplier_payment env user supplier amount memo w).1 (links w) (ground arith) h

-- Over every sequence of calls on products and suppliers, refused ones included, every purchase,
-- every row of prices and every item of an order goes on referring to a product that is stored, if
-- it did before.
pub deal_all-AreLinked :
    (calls : List CatalogueCall) (w : World) → AreLinked w → AreLinked (deal_all calls w)
unfolding deal_all
deal_all-AreLinked [] w h = h
deal_all-AreLinked (c ∷ rest) w h = deal_all-AreLinked rest (deal c w) (deal-AreLinked c w h)
