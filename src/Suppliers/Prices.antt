-- ===== src/Suppliers/Prices.antt =====
-- src/admin/admin.service.ts: updateProduct, which records a change of prices.
use ustabobo_bot.Base.{
  ℕ, ◌≡◌, Bool, false, not, ◌&&◌, ◌||◌, Option, none, some, [], ◌∷◌, ◌==◌, if◌then◌else◌, or_else,
  arith,
}
use ustabobo_bot.Base.Table.{lookup}
use ustabobo_bot.Base.Exec.{
  Exec, ok, not_found, product_missing, pure, gets, or_throw, throw_if, ◌>>=◌, ◌>>◌,
}
use ustabobo_bot.Schema.{World, Env, Text, Product}
use ustabobo_bot.Prisma.{update_product, updated}
use ustabobo_bot.Schema.{ProductPriceHistory}
use ustabobo_bot.Base.Exec.{foreign_key_violation}
use ustabobo_bot.Base.Table.{lookup-modify}
use ustabobo_bot.Suppliers.{create_price_history, has_supplier, either_of}

-- `AdminUpdateProductDto`; a field that is absent is not changed
pub record UpdateProductDto : Type 0 where
  pub name : Option Text
  pub supplier_id : Option ℕ
  pub cost_price : Option ℕ
  pub sale_price : Option ℕ
  pub stock_count : Option ℕ
  pub min_limit : Option ℕ

-- `dto.price != null && Number(dto.price) !== Number(product.price)`
abbrev pub differs : Option ℕ → ℕ → Bool
differs none price = false
differs (some new) price = not (new == price)

abbrev pub edited : UpdateProductDto → Product → Product
edited dto p = record p {
  name = or_else dto.name p.name;
  supplier_id = either_of dto.supplier_id p.supplier_id;
  cost_price = or_else dto.cost_price p.cost_price;
  sale_price = or_else dto.sale_price p.sale_price;
  stock_count = or_else dto.stock_count p.stock_count;
  min_limit = or_else dto.min_limit p.min_limit;
}

-- the text `Tahrirlash`
abbrev pub edited_note : Text
edited_note = b'T' ∷ b'a' ∷ b'h' ∷ b'r' ∷ b'i' ∷ b'r' ∷ b'l' ∷ b'a' ∷ b's' ∷ b'h' ∷ []

abbrev pub history_of : ℕ → Option ℕ → Product → ProductPriceHistory
history_of id changed_by p = record {
  product_id = id;
  cost_price = p.cost_price;
  sale_price = p.sale_price;
  changed_by_id = changed_by;
  note = some edited_note;
}

unfoldable pub admin_update_product : Env → ℕ → UpdateProductDto → Option ℕ → Exec World Product
admin_update_product env id dto changed_by = do
  found ← gets (λ w. lookup id w.products)
  p ← or_throw found (not_found product_missing)
  let price_changed = differs dto.cost_price p.cost_price || differs dto.sale_price p.sale_price
  known ← gets (has_supplier dto.supplier_id)
  throw_if (not known) foreign_key_violation
  updated ← update_product id (edited dto)
  if price_changed
      then create_price_history (env.uuid 0) (history_of id changed_by updated)
      else pure tt
  pure updated

-- both prices are what they were
abbrev pub same_prices : Product → Product → Bool
same_prices p q = p.cost_price == q.cost_price && p.sale_price == q.sale_price

-- An edit that goes through stores the product that it returns, and adds a row of its prices to the
-- history exactly if one of the two prices is another than before.
pub admin_update_product-history :
    (env : Env) (id : ℕ) (dto : UpdateProductDto) (user : Option ℕ) (w : World) (p q : Product)
    → lookup id w.products ≡ some p
    → (admin_update_product env id dto user w).0 ≡ ok q
    → (lookup id (admin_update_product env id dto user w).1.products ≡ some q)
      × ((admin_update_product env id dto user w).1.price_histories ≡ (
          if same_prices p q
          then w.price_histories
          else (env.uuid 0, history_of id user q) ∷ w.price_histories))
unfolding admin_update_product
admin_update_product-history env id dto user w p q found done =
    (ground (arith, lookup-modify id id (edited dto) w.products), ground arith)
