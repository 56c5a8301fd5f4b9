-- ===== src/Reports/Clients/Laws.antt =====
-- The list of clients accounts for every order without an organization, and its pages leave out none.
use ustabobo_bot.Base.{
  ℕ, zero, suc, ◌+◌, ◌*◌, ◌≤◌, ◌≡◌, refl, ap, ◌∙◌, Bool, List, [], ◌∷◌, ◌++◌, length, sum_by, arith,
}
use ustabobo_bot.Base.Table.{Table}
use ustabobo_bot.Base.Pages.{page, pages, pages-whole}
use ustabobo_bot.Schema.{World, Text, Order}
use ustabobo_bot.Text.{same_text}
use ustabobo_bot.Orders.Queries.{newest_first, insert_newest}
use ustabobo_bot.Reports.Groups.{values}
use ustabobo_bot.Reports.Groups.Laws.{group-sum}
use ustabobo_bot.Reports.Overall.{sort_desc, insert_desc}
use ustabobo_bot.Reports.Overall.Laws.{everywhere, ones}
use ustabobo_bot.Reports.Clients.{
  ClientFilters, ClientRow, phone_key, fresh_client, spent, add_to_client, client_map, clients_of,
  individual_orders, clients, get_individual_clients,
}

module _ {A : Type 0} (figure g : A → ℕ) where
  insert_desc-sum : (a : A) (xs : List A) → sum_by g (insert_desc figure a xs) ≡ g a + sum_by g xs
  unfolding insert_desc
  insert_desc-sum a [] = refl
  insert_desc-sum a (b ∷ xs) = ground (arith, insert_desc-sum a xs)

  sort_desc-sum : (xs : List A) → sum_by g (sort_desc figure xs) ≡ sum_by g xs
  unfolding sort_desc
  sort_desc-sum [] = refl
  sort_desc-sum (a ∷ xs) = ground (arith, insert_desc-sum a (sort_desc figure xs), sort_desc-sum xs)

module _ (g : ℕ × Order → ℕ) where
  insert_newest-sum :
      (r : ℕ × Order) (t : Table Order) → sum_by g (insert_newest r t) ≡ g r + sum_by g t
  unfolding insert_newest
  insert_newest-sum (k, o) [] = refl
  insert_newest-sum (k, o) ((j, p) ∷ t) = ground (arith, insert_newest-sum (k, o) t)

  newest_first-sum : (t : Table Order) → sum_by g (newest_first t) ≡ sum_by g t
  unfolding newest_first
  newest_first-sum [] = refl
  newest_first-sum (r ∷ t) =
      ground (arith, insert_newest-sum r (newest_first t), newest_first-sum t)

clients_sum :
    (g : ClientRow → ℕ) (δ : ℕ × Order → ℕ) (orders : Table Order)
    → ((p : ℕ × Order) → g (fresh_client p) ≡ 0)
    → ((p : ℕ × Order) (r : ClientRow) → g (add_to_client p r) ≡ g r + δ p)
    → sum_by g (clients_of (newest_first orders)) ≡ sum_by δ orders
unfolding clients_of client_map
clients_sum g δ orders empty adds =
    sort_desc-sum (λ r. r.last_activity) g (values (client_map (newest_first orders)))
    ∙ group-sum same_text phone_key fresh_client add_to_client g δ empty adds (newest_first orders)
        δ (everywhere (λ p. refl) (newest_first orders))
    ∙ newest_first-sum δ orders

-- the rows of a client that reads the first pages of the list
unfoldable pub read_clients : (ℕ → List ClientRow) → ℕ → List ClientRow
read_clients f zero = []
read_clients f (suc k) = read_clients f k ++ f (suc k)

read_clients-pages :
    (f : ℕ → List ClientRow) (limit : ℕ) (xs : List ClientRow)
    → ((p : ℕ) → f (suc p) ≡ page (suc p) limit xs)
    → (k : ℕ) → read_clients f k ≡ pages k limit xs
unfolding read_clients pages
read_clients-pages f limit xs h zero = refl
read_clients-pages f limit xs h (suc k) = rw (read_clients-pages f limit xs h k, h k) refl

module _ (matches : Text → Text → Bool) (f : ClientFilters) (w : World) (k limit : ℕ) where
  all_pages :
      (get_individual_clients matches f 1 limit w).total ≤ k * limit
      → read_clients (λ p. (get_individual_clients matches f p limit w).items) k
        ≡ clients matches f w
  unfolding get_individual_clients
  all_pages enough =
      read_clients-pages (λ p. (get_individual_clients matches f p limit w).items) limit
        (clients matches f w) (λ p. refl) k
      ∙ pages-whole k limit (clients matches f w) enough

  -- The pages of the clients, read until `total` rows are covered, account for every order without an
  -- organization that the filters let through: their numbers of orders add up to the number of
  -- these orders, and what they spent to the totals of the completed ones.
  pub get_individual_clients-sums :
      (get_individual_clients matches f 1 limit w).total ≤ k * limit
      → (sum_by
            (λ r. r.total_orders)
            (read_clients (λ p. (get_individual_clients matches f p limit w).items) k)
          ≡ length (individual_orders matches f w))
        × (sum_by
              (λ r. r.total_spent)
              (read_clients (λ p. (get_individual_clients matches f p limit w).items) k)
            ≡ sum_by spent (individual_orders matches f w))
  get_individual_clients-sums enough = (
    ap (λ rows. sum_by (λ r. r.total_orders) rows) (all_pages enough)
        ∙ clients_sum (λ r. r.total_orders) (λ _. 1) (individual_orders matches f w) (λ p. refl)
            (λ p r. ground arith)
        ∙ ones (individual_orders matches f w),
    ap (λ rows. sum_by (λ r. r.total_spent) rows) (all_pages enough)
        ∙ clients_sum (λ r. r.total_spent) spent (individual_orders matches f w) (λ p. refl)
            (λ p r. refl),
  )
