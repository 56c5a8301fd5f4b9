-- ===== src/Orders/Queries/Access.antt =====
-- Who sees which orders in the web application, and what the pages of a list leave out: nothing.
use ustabobo_bot.Base.{
  ℕ, subst, suc, ◌≤◌, ◌*◌, ◌≡◌, ◌↔◌, refl, ◌∙◌, ◌⊎◌, inl, inr, true, Option, none, some, [], ◌∷◌,
  ◌++◌, zero, ◌==◌, length, All, arith, Bool-cases, Option-cases,
}
use ustabobo_bot.Base.Int.{ℤ}
use ustabobo_bot.Base.Table.{Table, lookup, find_many}
use ustabobo_bot.Base.Pages.{page, pages, pages-whole, page-length, All-page}
use ustabobo_bot.Base.Exec.{ok}
use ustabobo_bot.Schema.{World, Text, Order, User, Role, boss}
use ustabobo_bot.Orders.Queries.{
  is_listed, insert_newest, newest_first, OrderList, all_listed, get_my_orders_by_user_id,
  find_user_by_telegram_id, get_my_orders, limit_num, page_num, my_orders_endpoint, is_boss_role,
  get_order_for_web_app,
}

-- whom an order is shown to
abbrev pub MaySee : ℕ → Role → Order → Type 0
MaySee user role o = (role ≡ boss) ⊎ ((o.master_id ≡ user) ⊎ (o.driver_id ≡ some user))

boss_role : (role : Role) → is_boss_role role ≡ true → role ≡ boss
boss_role boss h = refl
boss_role Role.master h = absurd (ground arith)
boss_role Role.driver h = absurd (ground arith)

shown :
    (id user : ℕ) (role : Role) (w : World) (o : Order)
    → (get_order_for_web_app id user role w).0 ≡ ok o
    → (lookup id w.orders ≡ some o) × MaySee user role o
unfolding get_order_for_web_app
shown id user role w o h = elim (Option-cases (lookup id w.orders)) [
  | inl absent ↦ ground arith
  | inr (p, found) ↦ elim (Bool-cases (is_boss_role role)) [
    | inl is_boss ↦ (ground arith, inl (boss_role role is_boss))
    | inr other ↦ elim (Bool-cases (p.master_id == user)) [
      | inl his ↦ (ground arith, inr (inl (ground arith)))
      | inr foreign ↦ (ground arith, inr (inr (ground arith)))
    ]
  ]
]

-- Someone is shown an order exactly if it exists and he is a boss, its master or its driver.
pub get_order_for_web_app_iff :
    (id user : ℕ) (role : Role) (w : World) (o : Order)
    → ((get_order_for_web_app id user role w).0 ≡ ok o)
      ↔ ((lookup id w.orders ≡ some o) × MaySee user role o)
unfolding get_order_for_web_app
get_order_for_web_app_iff id user role w o = (
  shown id user role w o,
  λ h. elim h.1 [
    | inl is_boss ↦ ground (arith, h.0)
    | inr (inl his) ↦ ground (arith, h.0)
    | inr (inr drives) ↦ ground (arith, h.0)
  ],
)

-- what a list holds: the orders of one user with the statuses asked for
abbrev pub IsOwn : ℕ → Role → Text → ℕ × Order → Type 0
IsOwn user role filter r = is_listed user role filter r.1 ≡ true

module _ (user : ℕ) (role : Role) (filter : Text) where
  insert_newest-IsOwn :
      (r : ℕ × Order) (t : Table Order)
      → IsOwn user role filter r
      → All (IsOwn user role filter) t
      → All (IsOwn user role filter) (insert_newest r t)
  unfolding insert_newest
  insert_newest-IsOwn (k, o) [] own h = (own, tt)
  insert_newest-IsOwn (k, o) ((j, p) ∷ t) own h =
      ground (arith, insert_newest-IsOwn (k, o) t own h.1)

  listed-IsOwn :
      (t : Table Order)
      → All (IsOwn user role filter) (newest_first (find_many (is_listed user role filter) t))
  unfolding newest_first find_many
  listed-IsOwn [] = tt
  listed-IsOwn ((k, o) ∷ t) = elim (Bool-cases (is_listed user role filter o)) [
    | inl own ↦ rw own (insert_newest-IsOwn (k, o) _ own (listed-IsOwn t))
    | inr other ↦ rw other (listed-IsOwn t)
  ]

  insert_newest-length :
      (r : ℕ × Order) (t : Table Order) → length (insert_newest r t) ≡ suc (length t)
  unfolding insert_newest
  insert_newest-length (k, o) [] = refl
  insert_newest-length (k, o) ((j, p) ∷ t) = ground (arith, insert_newest-length (k, o) t)

  newest_first-length : (t : Table Order) → length (newest_first t) ≡ length t
  unfolding newest_first
  newest_first-length [] = refl
  newest_first-length (r ∷ t) =
      ground (arith, insert_newest-length r (newest_first t), newest_first-length t)

-- the rows of a client that reads the first pages of a list
unfoldable pub read_pages : (ℕ → Table Order) → ℕ → Table Order
read_pages f zero = []
read_pages f (suc k) = read_pages f k ++ f (suc k)

read_pages-pages :
    (f : ℕ → Table Order) (limit : ℕ) (xs : Table Order)
    → ((p : ℕ) → f p ≡ page p limit xs)
    → (k : ℕ) → read_pages f k ≡ pages k limit xs
unfolding read_pages pages
read_pages-pages f limit xs h zero = refl
read_pages-pages f limit xs h (suc k) = rw (read_pages-pages f limit xs h k, h (suc k)) refl

module _ (user : ℕ) (role : Role) (filter : Text) (w : World) where
  -- A page of one's orders holds orders of one's own only, with the statuses that were asked for, and
  -- no more than `limit`.
  pub get_my_orders_by_user_id-IsOwn :
      (p limit : ℕ)
      → All (IsOwn user role filter) (get_my_orders_by_user_id user role filter p limit w).items
        × (length (get_my_orders_by_user_id user role filter p limit w).items ≤ limit)
  unfolding get_my_orders_by_user_id
  get_my_orders_by_user_id-IsOwn p limit = (
    All-page (IsOwn user role filter) p limit _ (listed-IsOwn user role filter w.orders),
    page-length p limit (newest_first (all_listed user role filter w)),
  )

  -- Reading page after page until `total` rows are covered gives every order of one's own with the
  -- statuses asked for, each once and the newest first: no row is lost between two pages.
  pub get_my_orders_by_user_id-whole :
      (k limit : ℕ)
      → (get_my_orders_by_user_id user role filter 1 limit w).total ≤ k * limit
      → read_pages (λ p. (get_my_orders_by_user_id user role filter p limit w).items) k
        ≡ newest_first (all_listed user role filter w)
  unfolding get_my_orders_by_user_id
  get_my_orders_by_user_id-whole k limit enough =
      let all = newest_first (all_listed user role filter w) in
      let fits : length all ≤ k * limit =
        rw (newest_first-length user role filter (all_listed user role filter w)) enough in
      read_pages-pages (λ p. (get_my_orders_by_user_id user role filter p limit w).items) limit all
        (λ p. refl) k
      ∙ pages-whole k limit all fits

limit_num_100 : (l : Option (Option ℤ)) → limit_num l ≤ 100
limit_num_100 none = ground arith
limit_num_100 (some l) = ground arith

-- The handler of one's own list answers only for one's own chat; then it lists at most a hundred
-- orders, whatever page and limit were asked for, and all of them one's own.
pub my_orders_endpoint-IsOwn :
    (tg user : ℕ) (filter : Text) (p limit : Option (Option ℤ)) (w : World) (r : OrderList)
    → (my_orders_endpoint tg user filter p limit w).0 ≡ ok r
    → (u : User) × (find_user_by_telegram_id tg w ≡ some (user, u))
      × All (IsOwn user u.role filter) r.items
      × (length r.items ≤ 100)
unfolding my_orders_endpoint get_my_orders
my_orders_endpoint-IsOwn tg user filter p limit w r h =
    elim (Option-cases (find_user_by_telegram_id tg w)) [
      | inl unknown ↦ ground arith
      | inr ((id, u), found) ↦ elim (Bool-cases (id == user)) [
        | inr other ↦ ground arith
        | inl self ↦
            let id_is_user : id ≡ user = ground arith in
            let listed : r
                ≡ get_my_orders_by_user_id id u.role filter (page_num p) (limit_num limit) w =
              ground arith in
            let items =
              (get_my_orders_by_user_id id u.role filter (page_num p) (limit_num limit) w).items in
            let few : limit_num limit ≤ 100 = limit_num_100 limit in
            let (own, short) =
              get_my_orders_by_user_id-IsOwn id u.role filter w (page_num p) (limit_num limit) in
            (
              u,
              ground arith,
              rw listed (subst (λ n. All (IsOwn n u.role filter) items) id_is_user own),
              rw listed (ground arith),
            )
      ]
    ]
