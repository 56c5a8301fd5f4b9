-- ===== src/Suppliers.antt =====
-- src/admin/admin.service.ts: what comes into the store and the accounts of the suppliers: stockIn,
-- createProduct, recordSupplierPayment, getSupplierById, getSupplierDebtSummary.
pub mod Stock
pub mod Aging
pub mod Prices
pub mod Catalogue
use ustabobo_bot.Base.{
  ℕ, ◌+◌, ◌*◌, Bool, true, false, not, Option, none, some, [], ◌∷◌, ltb, ◌==◌, if◌then◌else◌,
  or_else, is_some,
}
use ustabobo_bot.Base.Int.{ℤ, pos, ◌-ℤ◌}
use ustabobo_bot.Base.Table.{Table, lookup}
use ustabobo_bot.Base.Exec.{
  Exec, bad_request, not_found, product_missing, pure, gets, put, or_throw, transaction, throw_if,
  ◌>>=◌, ◌>>◌,
}
use ustabobo_bot.Schema.{World, Env, Text, Product}
use ustabobo_bot.Prisma.{update_product}
use ustabobo_bot.Schema.{
  ProductPriceHistory, Supplier, SupplierPurchase, SupplierPayment, supplier_payment_create,
}
use ustabobo_bot.Base.Exec.{supplier_missing, bad_sale_price, foreign_key_violation}
use ustabobo_bot.Text.{trim}

-- `AdminStockInDto`
pub record StockInDto : Type 0 where
  pub quantity : ℕ
  pub price_per_unit : Option ℕ
  pub supplier_id : Option ℕ
  pub note : Option Text

abbrev pub is_active_supplier : Option Supplier → Bool
is_active_supplier none = false
is_active_supplier (some s) = s.is_active

-- `supplier.findUnique({ where: { id, is_active: true } })`, where the dto names a supplier
abbrev pub check_supplier : Option ℕ → Exec World (Unit {0})
check_supplier none = pure tt
check_supplier (some s) = do
  found ← gets (λ w. is_active_supplier (lookup s w.suppliers))
  throw_if (not found) (not_found supplier_missing)

-- `productPriceHistory.create`
abbrev pub create_price_history : ℕ → ProductPriceHistory → Exec World (Unit {0})
create_price_history k h = put (λ w. record w { price_histories = (k, h) ∷ w.price_histories })

-- `supplierPurchase.create`; the total is quantity times cost
abbrev pub purchase_of : ℕ → ℕ → ℕ → ℕ → ℕ → SupplierPurchase
purchase_of supplier id quantity cost now = record {
  supplier_id = supplier;
  product_id = id;
  quantity = quantity;
  unit_cost = cost;
  total = quantity * cost;
  created_at = now;
}

abbrev pub create_purchase : ℕ → Option ℕ → ℕ → ℕ → ℕ → ℕ → Exec World (Unit {0})
create_purchase k none id quantity cost now = pure tt
create_purchase k (some s) id quantity cost now =
    put (λ w. record w { purchases = (k, purchase_of s id quantity cost now) ∷ w.purchases })

-- `stockIn`: the two branches of the source differ in the purchase only
unfoldable pub stock_in : Env → ℕ → StockInDto → Option ℕ → Exec World (Option Product)
stock_in env id dto changed_by = do
  found ← gets (λ w. lookup id w.products)
  p ← or_throw found (not_found product_missing)
  let new_stock = p.stock_count + dto.quantity
  let cost = or_else dto.price_per_unit p.cost_price
  check_supplier dto.supplier_id
  transaction (do
    update_product id (λ q. record q { stock_count = new_stock; cost_price = cost })
    create_price_history (env.uuid 0) (record {
      product_id = id;
      cost_price = cost;
      sale_price = p.sale_price;
      changed_by_id = changed_by;
      note = dto.note;
    })
    create_purchase (env.uuid 1) dto.supplier_id id dto.quantity cost env.now)
  gets (λ w. lookup id w.products)

-- `AdminCreateProductDto`
pub record CreateProductDto : Type 0 where
  pub name : Text
  pub cost_price : ℕ
  pub sale_price : Option ℕ
  pub selling_price : Option ℕ
  pub stock_count : ℕ
  pub min_limit : Option ℕ
  pub min_stock : Option ℕ
  pub supplier_id : Option ℕ

-- `a ?? b`
abbrev pub either_of : Option ℕ → Option ℕ → Option ℕ
either_of none b = b
either_of (some a) b = some a

-- the foreign key of `Product.supplier_id`
abbrev pub has_supplier : Option ℕ → World → Bool
has_supplier none w = true
has_supplier (some s) w = is_some (lookup s w.suppliers)

abbrev pub new_product : CreateProductDto → ℕ → Product
new_product dto sale = record {
  name = trim dto.name;
  cost_price = dto.cost_price;
  sale_price = sale;
  stock_count = dto.stock_count;
  min_limit = or_else (either_of dto.min_limit dto.min_stock) 0;
  is_active = true;
  supplier_id = dto.supplier_id;
}

-- the text `Yaratildi`
abbrev pub created_note : Text
created_note = b'Y' ∷ b'a' ∷ b'r' ∷ b'a' ∷ b't' ∷ b'i' ∷ b'l' ∷ b'd' ∷ b'i' ∷ []

unfoldable pub create_product : Env → CreateProductDto → Exec World Product
create_product env dto = do
  sale ← or_throw (either_of dto.sale_price dto.selling_price) (bad_request bad_sale_price)
  throw_if (sale == 0) (bad_request bad_sale_price)
  let p = new_product dto sale
  known ← gets (has_supplier dto.supplier_id)
  throw_if (not known) foreign_key_violation
  put (λ w. record w { products = (env.uuid 0, p) ∷ w.products })
  create_price_history (env.uuid 1) (record {
    product_id = env.uuid 0;
    cost_price = dto.cost_price;
    sale_price = sale;
    changed_by_id = none;
    note = some created_note;
  })
  if ltb 0 dto.stock_count
      then create_purchase (env.uuid 2) dto.supplier_id (env.uuid 0) dto.stock_count dto.cost_price
          env.now
      else pure tt
  pure p

abbrev pub payment_of : ℕ → ℕ → ℕ → Option Text → SupplierPayment
payment_of supplier amount now note = record {
  supplier_id = supplier;
  amount = amount;
  created_at = now;
  note = note;
}

-- `recordSupplierPayment`
unfoldable pub record_supplier_payment :
    Env → Option ℕ → ℕ → ℕ → Option Text → Exec World SupplierPayment
record_supplier_payment env user supplier amount note = do
  found ← gets (λ w. lookup supplier w.suppliers)
  or_throw found (not_found supplier_missing)
  let payment = payment_of supplier amount env.now note
  put (λ w. record w {
    payments = (env.uuid 0, payment) ∷ w.payments;
    audit_logs =
        record {
          user_id = user;
          action = supplier_payment_create amount (env.uuid 0);
          entity_id = supplier;
        }
        ∷ w.audit_logs;
  })
  pure payment

-- `aggregate({ where: { supplier_id }, _sum: { total: true } })`
unfoldable pub purchases_sum : ℕ → Table SupplierPurchase → ℕ
purchases_sum s [] = 0
purchases_sum s ((_, p) ∷ t) =
    let rest = purchases_sum s t in if p.supplier_id == s then p.total + rest else rest

unfoldable pub payments_sum : ℕ → Table SupplierPayment → ℕ
payments_sum s [] = 0
payments_sum s ((_, p) ∷ t) =
    let rest = payments_sum s t in if p.supplier_id == s then p.amount + rest else rest

-- the `debt` of getSupplierById and of the summary
unfoldable pub debt : ℕ → World → ℤ
debt s w = pos (purchases_sum s w.purchases) -ℤ pos (payments_sum s w.payments)
