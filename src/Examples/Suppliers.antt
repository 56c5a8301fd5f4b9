-- ===== src/Examples/Suppliers.antt =====
-- The theorems on suppliers and stock at small databases.
use ustabobo_bot.Base.{ℕ, ◌+◌, ◌-◌, ◌*◌, ◌≡◌, refl, none, some, [], ◌∷◌}
use ustabobo_bot.Base.Table.{lookup, modify, erase}
use ustabobo_bot.Schema.{World, product}
use ustabobo_bot.Examples.Shop.{shop, part, env_at}
use ustabobo_bot.Suppliers.{
  CreateProductDto, create_product, StockInDto, payment_of, purchase_of, payments_sum,
}
use ustabobo_bot.Suppliers.Aging.{aging_of}
use ustabobo_bot.Suppliers.Aging.Fifo.{older_sum, aging_of-fifo}
use ustabobo_bot.Base.{List, map, none, some, refl, ◌≡◌}
use ustabobo_bot.Schema.{Product}
use ustabobo_bot.Suppliers.Prices.{UpdateProductDto, edited}
use ustabobo_bot.Suppliers.Catalogue.{
  delete_product, toggle_product_active, has_purchases, without_histories, unlink_items,
}
use ustabobo_bot.Suppliers.Catalogue.Links.{AreLinked}
use ustabobo_bot.Suppliers.Catalogue.Calls.{
  CatalogueCall, create, delete, toggle, deal, deal_all, deal_all-AreLinked,
}

abbrev day : ℕ
day = 86_400_000

-- one old purchase, one new one, and a payment that covers a part of the old one
abbrev owing : World
owing = record shop {
  purchases = (71, purchase_of 50 40 1 900 (95 * day)) ∷ (70, purchase_of 50 40 1 500 day) ∷ [];
  payments = (80, payment_of 50 200 (2 * day) none) ∷ [];
}

aging_of-fifo_example :
    ((aging_of (100 * day) 50 owing).age_61_plus
      ≡ older_sum (100 * day) 60 50 owing.purchases - payments_sum 50 owing.payments)
    × ((aging_of (100 * day) 50 owing).age_31_60 + (aging_of (100 * day) 50 owing).age_61_plus
        ≡ older_sum (100 * day) 30 50 owing.purchases - payments_sum 50 owing.payments)
aging_of-fifo_example = aging_of-fifo (100 * day) 50 owing

abbrev delivery : StockInDto
delivery = record { quantity = 3; price_per_unit = some 70; supplier_id = some 50; note = none }

abbrev price_edit : UpdateProductDto
price_edit = record {
  name = none;
  supplier_id = some 50;
  cost_price = none;
  sale_price = some 1_500;
  stock_count = none;
  min_limit = some 4;
}

abbrev edited_part : Product
edited_part = edited price_edit (part 1_000 1)

-- an item of an order for the second product
abbrev linked_shop : World
linked_shop = record shop {
  order_items =
      (
        90,
        record {
          order_id = 7;
          item_type = product;
          product_id = some 41;
          service_id = none;
          item_name = none;
          quantity = 1;
          price_at_time = 1_000;
        },
      )
      ∷ [];
}

abbrev wares : CreateProductDto
wares = record {
  name = [];
  cost_price = 70;
  sale_price = some 90;
  selling_price = none;
  stock_count = 4;
  min_limit = none;
  min_stock = none;
  supplier_id = some 50;
}

-- a product bought from a supplier is not deleted, and one that was only ordered is
abbrev dealings : List CatalogueCall
dealings = create (env_at 3 600) wares ∷ delete 600 ∷ delete 41 ∷ toggle 40 ∷ []

deal_all-AreLinked_example : AreLinked (deal_all dealings linked_shop)
unfolding lookup
deal_all-AreLinked_example = deal_all-AreLinked dealings linked_shop (tt, tt, (refl, tt))

linked_shop-dealt :
    (map (λ (k, _). k) (deal_all dealings linked_shop).products ≡ 600 ∷ 40 ∷ [])
    × (map (λ (_, i). i.product_id) (deal_all dealings linked_shop).order_items ≡ none ∷ [])
unfolding deal_all deal create_product delete_product toggle_product_active has_purchases
    without_histories unlink_items lookup modify erase
linked_shop-dealt = (refl, refl)
