-- ===== src/Reports/History/Spent.antt =====
-- What the histories count as spent, and the pages that they announce.
use ustabobo_bot.Base.{
  ℕ, suc, ◌+◌, ◌*◌, ◌≤◌, ◌<◌, ◌≡◌, refl, Bool, ◌&&◌, some, [], ◌∷◌, if◌then◌else◌, length, arith,
  ap, ◌∙◌, Bool-cases, inl, inr,
}
use ustabobo_bot.Base.Table.{Table, lookup, find_many}
use ustabobo_bot.Base.Pages.{page, pages, pages-whole}
use ustabobo_bot.Base.Exec.{ok}
use ustabobo_bot.Schema.{World, Text, Order, Vehicle}
use ustabobo_bot.Orders.Queries.{newest_first, insert_newest}
use ustabobo_bot.Reports.History.{
  is_done, amounts, amounts_done, page_count, is_blank, history_of, client_page, client_info,
  ClientHistory, ClientInfo, get_clients_history, VehicleHistory, get_vehicle_history,
  is_of_vehicle, vehicle_page,
}

-- the amounts of the orders that are not completed
unfoldable pub amounts_open : Table Order → ℕ
amounts_open [] = 0
amounts_open ((_, o) ∷ t) =
    let rest = amounts_open t in if is_done o then rest else o.total_amount + rest

amounts_split : (t : Table Order) → amounts t ≡ amounts_done t + amounts_open t
unfolding amounts amounts_done amounts_open
amounts_split [] = refl
amounts_split ((k, o) ∷ t) = ground (arith, amounts_split t)

client_info-spent :
    (t : Table Order) (total spent : ℕ) (i : ClientInfo)
    → client_info t total spent ≡ some i
    → i.total_spent ≡ spent
client_info-spent [] total spent i h = cc
client_info-spent ((k, o) ∷ t) total spent i h = ground arith

-- What the history of a client calls spent is what his completed orders were paid, and what the
-- others would have cost, cancelled ones and drafts included.
pub get_clients_history-spent :
    (matches : Text → Text → Bool) (phone car : Text) (p limit : ℕ) (w : World) (h : ClientHistory)
    (i : ClientInfo)
    → (get_clients_history matches phone car p limit w).0 ≡ ok h
    → h.client ≡ some i
    → i.total_spent
      ≡ amounts_done (history_of matches phone car w)
        + amounts_open (history_of matches phone car w)
unfolding get_clients_history
get_clients_history-spent matches phone car p limit w h i done known =
    elim (Bool-cases (is_blank phone && is_blank car)) [
      | inl blank ↦ ground arith
      | inr asked ↦
          let all = history_of matches phone car w in
          let shown : client_page all p limit ≡ h = ground arith in
          let named : client_info (page p limit (newest_first all)) (length all) (amounts all)
              ≡ some i =
            ap (λ (r : ClientHistory). r.client) shown ∙ known in
          client_info-spent (page p limit (newest_first all)) (length all) (amounts all) i named
          ∙ amounts_split all
    ]

length-insert_newest :
    (k : ℕ) (o : Order) (t : Table Order) → length (insert_newest (k, o) t) ≡ suc (length t)
unfolding insert_newest
length-insert_newest k o [] = refl
length-insert_newest k o ((j, p) ∷ t) = ground (arith, length-insert_newest k o t)

length-newest_first : (t : Table Order) → length (newest_first t) ≡ length t
unfolding newest_first
length-newest_first [] = refl
length-newest_first ((k, o) ∷ t) =
    omega (arith, length-insert_newest k o (newest_first t), length-newest_first t)

enough_pages : (total limit : ℕ) → 0 < limit → total ≤ page_count total limit * limit
enough_pages total limit h = grind arith

-- The history of a vehicle has a row for every order of it: the pages that it announces, one after the
-- other, are all its orders, the newest first, and what it calls spent is what the completed ones
-- among them were paid.
pub get_vehicle_history-whole :
    (id p limit : ℕ) (w : World) (v : Vehicle)
    → 0 < limit
    → lookup id w.vehicles ≡ some v
    → (h : VehicleHistory) × ((get_vehicle_history id p limit w).0 ≡ ok h)
      × (h.orders ≡ page p limit (newest_first (find_many (is_of_vehicle id) w.orders)))
      × (pages h.total_pages limit (newest_first (find_many (is_of_vehicle id) w.orders))
          ≡ newest_first (find_many (is_of_vehicle id) w.orders))
      × (h.total_spent + amounts_open (find_many (is_of_vehicle id) w.orders)
          ≡ amounts (find_many (is_of_vehicle id) w.orders))
unfolding get_vehicle_history
get_vehicle_history-whole id p limit w v some_rows found =
    let all = find_many (is_of_vehicle id) w.orders in
    (
      vehicle_page v all p limit,
      rw found,
      refl,
      pages-whole (page_count (length all) limit) limit (newest_first all)
          (rw (length-newest_first all) (enough_pages (length all) limit some_rows)),
      omega (arith, amounts_split all),
    )
