-- ===== src/Suppliers/Catalogue.antt =====
-- src/admin/admin.service.ts: toggleProductActive, deleteProduct, createSupplier, updateSupplier,
-- and what the foreign keys of prisma/schema.prisma do when a product is deleted.
pub mod Links
pub mod Writes
pub mod Calls
use ustabobo_bot.Base.{
  ℕ, Bool, true, false, not, Option, none, some, [], ◌∷◌, ◌==◌, if◌then◌else◌, or_else, holds,
}
use ustabobo_bot.Base.Table.{Table, lookup, modify, erase}
use ustabobo_bot.Base.Exec.{
  Exec, not_found, product_missing, record_missing, foreign_key_violation, pure, gets, put,
  or_throw, throw_if, ◌>>=◌, ◌>>◌,
}
use ustabobo_bot.Schema.{
  World, Env, Text, Product, ProductPriceHistory, Supplier, SupplierPurchase, OrderItem,
}
use ustabobo_bot.Prisma.{update_product}

-- `toggleProductActive`
unfoldable pub toggle_product_active : ℕ → Exec World Product
toggle_product_active id = do
  found ← gets (λ w. lookup id w.products)
  p ← or_throw found (not_found product_missing)
  update_product id (λ q. record q { is_active = not p.is_active })

-- `SupplierPurchase.product`, `onDelete: Restrict`: is there a row that forbids the deletion?
unfoldable pub has_purchases : ℕ → Table SupplierPurchase → Bool
has_purchases id [] = false
has_purchases id ((_, p) ∷ t) = if p.product_id == id then true else has_purchases id t

-- `ProductPriceHistory.product`, `onDelete: Cascade`
unfoldable pub without_histories : ℕ → Table ProductPriceHistory → Table ProductPriceHistory
without_histories id [] = []
without_histories id ((k, h) ∷ t) =
    let rest = without_histories id t in if h.product_id == id then rest else (k, h) ∷ rest

-- `OrderItem.product`, `onDelete: SetNull`
abbrev pub unlinked : ℕ → OrderItem → OrderItem
unlinked id i = if holds id i.product_id then record i { product_id = none } else i

unfoldable pub unlink_items : ℕ → Table OrderItem → Table OrderItem
unlink_items id [] = []
unlink_items id ((k, i) ∷ t) = (k, unlinked id i) ∷ unlink_items id t

-- `product.delete({ where: { id } })` on a row that is there
abbrev pub remove_row : ℕ → Exec World (Unit {0})
remove_row id = do
  bought ← gets (λ w. has_purchases id w.purchases)
  throw_if bought foreign_key_violation
  put (λ w. record w {
    products = erase id w.products;
    price_histories = without_histories id w.price_histories;
    order_items = unlink_items id w.order_items;
  })

-- `deleteProduct`
unfoldable pub delete_product : ℕ → Exec World (Unit {0})
delete_product id = do
  found ← gets (λ w. lookup id w.products)
  or_throw found (not_found product_missing)
  remove_row id

-- `createSupplier`; the column `is_active` is true by default
unfoldable pub create_supplier : Env → Text → Exec World Supplier
create_supplier env fullname = do
  let s : Supplier = record { fullname = fullname; is_active = true }
  put (λ w. record w { suppliers = (env.uuid 0, s) ∷ w.suppliers })
  pure s

-- `AdminUpdateSupplierDto`; a field that is absent is not changed
pub record UpdateSupplierDto : Type 0 where
  pub fullname : Option Text
  pub is_active : Option Bool

abbrev pub edited_supplier : UpdateSupplierDto → Supplier → Supplier
edited_supplier dto s = record {
  fullname = or_else dto.fullname s.fullname;
  is_active = or_else dto.is_active s.is_active;
}

-- `updateSupplier`
unfoldable pub update_supplier : ℕ → UpdateSupplierDto → Exec World Supplier
update_supplier id dto = do
  found ← gets (λ w. lookup id w.suppliers)
  s ← or_throw found record_missing
  put (λ w. record w { suppliers = modify id (edited_supplier dto) w.suppliers })
  pure (edited_supplier dto s)
