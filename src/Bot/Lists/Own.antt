-- ===== src/Bot/Lists/Own.antt =====
-- Whose orders a list of the bot has, and what its pages come to.
use mathlib.Core.List.{append-nil}
use ustabobo_bot.Base.{
  ℕ, zero, suc, ◌+◌, ◌-◌, ◌<◌, ◌≡◌, some, Bool, true, [], ◌∷◌, ◌++◌, ltb, leb, length,
  if◌then◌else◌, arith, Bool-cases, inl, inr,
}
use ustabobo_bot.Base.Table.{Table, find_many, AllRows}
use ustabobo_bot.Base.Pages.{
  take, drop, take_all, drop_all, take-take, take-drop, drop-drop, length-drop, take-length_long,
}
use ustabobo_bot.Schema.{World, Order}
use ustabobo_bot.Orders.Queries.{newest_first, insert_newest}
use ustabobo_bot.Bot.Lists.{
  history_page, is_driving, driver_faol, is_open_of, master_faol, is_closed_of, is_driven,
  master_tarix, driver_tarix,
}

-- from page to page by the button of the next one, as long as it is there
unfoldable pub leaf_through : ℕ → ℕ → Table Order → Table Order
leaf_through zero skip t = []
leaf_through (suc fuel) skip t =
    let rest = leaf_through fuel (skip + 10) t in
    (history_page skip t).lines ++ (if (history_page skip t).has_next then rest else [])

-- a page shows the first ten rows from `skip` on, and has a next one exactly if there are more
page_lines : (skip : ℕ) (t : Table Order) → (history_page skip t).lines ≡ take 10 (drop skip t)
unfolding history_page
page_lines skip t = take-take 10 11 (drop skip t) (omega arith)

page_next : (skip : ℕ) (t : Table Order) → (history_page skip t).has_next ≡ ltb 10 (length t - skip)
unfolding history_page
page_next skip t = elim (Bool-cases (ltb 10 (length (drop skip t)))) [
  | inl more ↦
      let full = take-length_long 11 (drop skip t) (ground arith) in
      ground (arith, full, length-drop skip t)
  | inr last ↦
      let short = take_all 11 (drop skip t) (ground arith) in
      rw short (ground (arith, length-drop skip t))
]

leaf_through-drop :
    (fuel skip : ℕ) (t : Table Order)
    → length t < skip + fuel
    → leaf_through fuel skip t ≡ drop skip t
unfolding leaf_through
leaf_through-drop zero skip t h = rw (drop_all skip t (omega arith))
leaf_through-drop (suc fuel) skip t h = elim (Bool-cases (ltb 10 (length t - skip))) [
  | inl more ↦
      rw
        (
          page_lines skip t,
          page_next skip t,
          more,
          leaf_through-drop fuel (skip + 10) t (ground arith),
        )
        (rw (← drop-drop skip 10 t) (take-drop 10 (drop skip t)))
  | inr last ↦
      rw (page_lines skip t, page_next skip t, last, append-nil)
        (take_all 10 (drop skip t) (ground (arith, length-drop skip t)))
]

-- Whoever opens the history and presses the button of the next page until there is none has been
-- shown every order of it, once and in order, after at most as many pages as there are orders and one.
pub leaf_through-all : (t : Table Order) → leaf_through (suc (length t)) 0 t ≡ t
unfolding drop
leaf_through-all t = leaf_through-drop (suc (length t)) 0 t (omega arith)

module _ {κ} (P : Order → Type κ) where
  find_many-AllRows :
      (test : Order → Bool)
      → ((o : Order) → test o ≡ true → P o)
      → (t : Table Order) → AllRows P (find_many test t)
  unfolding find_many
  find_many-AllRows test sound [] = tt
  find_many-AllRows test sound ((k, o) ∷ t) = elim (Bool-cases (test o)) [
    | inl hit ↦ rw hit (sound o hit, find_many-AllRows test sound t)
    | inr miss ↦ rw miss (find_many-AllRows test sound t)
  ]

  insert_newest-AllRows :
      (k : ℕ) (o : Order) (t : Table Order) → P o → AllRows P t → AllRows P (insert_newest (k, o) t)
  unfolding insert_newest
  insert_newest-AllRows k o [] h hs = (h, tt)
  insert_newest-AllRows k o ((j, p) ∷ t) h hs = elim (Bool-cases (leb p.created_at o.created_at)) [
    | inl newer ↦ rw newer (h, hs)
    | inr older ↦ rw older (hs.0, insert_newest-AllRows k o t h hs.1)
  ]

  newest_first-AllRows : (t : Table Order) → AllRows P t → AllRows P (newest_first t)
  unfolding newest_first
  newest_first-AllRows [] h = tt
  newest_first-AllRows ((k, o) ∷ t) h =
      insert_newest-AllRows k o (newest_first t) h.0 (newest_first-AllRows t h.1)

  take-AllRows : (n : ℕ) (t : Table Order) → AllRows P t → AllRows P (take n t)
  unfolding take
  take-AllRows zero t h = tt
  take-AllRows (suc n) [] h = tt
  take-AllRows (suc n) ((k, o) ∷ t) h = (h.0, take-AllRows n t h.1)

  drop-AllRows : (n : ℕ) (t : Table Order) → AllRows P t → AllRows P (drop n t)
  unfolding drop
  drop-AllRows zero t h = h
  drop-AllRows (suc n) [] h = tt
  drop-AllRows (suc n) ((k, o) ∷ t) h = drop-AllRows n t h.1

  page-AllRows : (skip : ℕ) (t : Table Order) → AllRows P t → AllRows P (history_page skip t).lines
  page-AllRows skip t h =
      rw (page_lines skip t) (take-AllRows 10 (drop skip t) (drop-AllRows skip t h))

abbrev pub Driven : ℕ → Order → Type 0
Driven id o = o.driver_id ≡ some id

abbrev pub Mastered : ℕ → Order → Type 0
Mastered id o = o.master_id ≡ id

pub master_faol-Mastered : (id : ℕ) (w : World) → AllRows (Mastered id) (master_faol id w)
unfolding master_faol
master_faol-Mastered id w =
    take-AllRows (Mastered id) 10 (newest_first (find_many (is_open_of id) w.orders)) (
      newest_first-AllRows (Mastered id) (find_many (is_open_of id) w.orders)
        (find_many-AllRows (Mastered id) (is_open_of id) (λ o h. ground arith) w.orders))

pub master_tarix-Mastered :
    (skip id : ℕ) (w : World) → AllRows (Mastered id) (master_tarix skip id w).lines
unfolding master_tarix
master_tarix-Mastered skip id w =
    page-AllRows (Mastered id) skip (newest_first (find_many (is_closed_of id) w.orders)) (
      newest_first-AllRows (Mastered id) (find_many (is_closed_of id) w.orders)
        (find_many-AllRows (Mastered id) (is_closed_of id) (λ o h. ground arith) w.orders))

pub driver_faol-Driven : (id : ℕ) (w : World) → AllRows (Driven id) (driver_faol id w)
unfolding driver_faol
driver_faol-Driven id w =
    newest_first-AllRows (Driven id) (find_many (is_driving id) w.orders)
      (find_many-AllRows (Driven id) (is_driving id) (λ o h. ground arith) w.orders)

pub driver_tarix-Driven :
    (skip id : ℕ) (w : World) → AllRows (Driven id) (driver_tarix skip id w).lines
unfolding driver_tarix
driver_tarix-Driven skip id w =
    page-AllRows (Driven id) skip (newest_first (find_many (is_driven id) w.orders)) (
      newest_first-AllRows (Driven id) (find_many (is_driven id) w.orders)
        (find_many-AllRows (Driven id) (is_driven id) (λ o h. ground arith) w.orders))
