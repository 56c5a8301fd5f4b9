-- ===== src/Products.antt =====
-- src/products/products.service.ts: create, findOne, update, remove. Unlike the service of the
-- administration, it writes no row of prices.
use ustabobo_bot.Base.{ℕ, true, Option, none, ◌∷◌, or_else}
use ustabobo_bot.Base.Table.{lookup}
use ustabobo_bot.Base.Exec.{
  Exec, not_found, product_missing, pure, gets, put, or_throw, ◌>>=◌, ◌>>◌,
}
use ustabobo_bot.Schema.{World, Env, Text, Product}
use ustabobo_bot.Prisma.{update_product}
use ustabobo_bot.Suppliers.Catalogue.{remove_row}

-- `CreateProductDto`
pub record CreateProductDto : Type 0 where
  pub name : Text
  pub cost_price : ℕ
  pub sale_price : ℕ
  pub stock_count : ℕ
  pub min_limit : ℕ

-- `UpdateProductDto`; a field that is absent is not changed
pub record UpdateProductDto : Type 0 where
  pub name : Option Text
  pub cost_price : Option ℕ
  pub sale_price : Option ℕ
  pub stock_count : Option ℕ
  pub min_limit : Option ℕ

-- the row; the column `is_active` is true by default
abbrev pub product_of : CreateProductDto → Product
product_of dto = record {
  name = dto.name;
  cost_price = dto.cost_price;
  sale_price = dto.sale_price;
  stock_count = dto.stock_count;
  min_limit = dto.min_limit;
  is_active = true;
  supplier_id = none;
}

abbrev pub changed_product : UpdateProductDto → Product → Product
changed_product dto p = record p {
  name = or_else dto.name p.name;
  cost_price = or_else dto.cost_price p.cost_price;
  sale_price = or_else dto.sale_price p.sale_price;
  stock_count = or_else dto.stock_count p.stock_count;
  min_limit = or_else dto.min_limit p.min_limit;
}

-- `create`
unfoldable pub create_plain : Env → CreateProductDto → Exec World Product
create_plain env dto = do
  put (λ w. record w { products = (env.uuid 0, product_of dto) ∷ w.products })
  pure (product_of dto)

-- `findOne`
abbrev pub find_one : ℕ → Exec World Product
find_one id = do
  found ← gets (λ w. lookup id w.products)
  or_throw found (not_found product_missing)

-- `update`
unfoldable pub update_plain : ℕ → UpdateProductDto → Exec World Product
update_plain id dto = do find_one id; update_product id (changed_product dto)

-- `remove`
unfoldable pub remove_product : ℕ → Exec World Product
remove_product id = do p ← find_one id; remove_row id; pure p
