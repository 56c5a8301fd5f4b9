-- ===== src/Base/Pages.antt =====
-- Pages of a list, as a query's `skip` and `take` or a `slice` cut them: page `p` of `limit` rows
-- begins at `(p - 1) * limit`.
use ustabobo_bot.Base.Lists.{length, All}
use Prim.Native.Nat.{ℕ, zero, suc, ◌+◌, ◌-◌, ◌*◌, ◌≤◌}
use mathlib.Core.Path.{◌≡◌, refl, sym, ap, ◌∙◌}
use mathlib.Core.List.{List, [], ◌∷◌, ◌++◌}
use native.Mathlib.Omega.{arith}

module _ {A : Type 0} where
  unfoldable pub take : ℕ → List A → List A
  take zero xs = []
  take (suc n) [] = []
  take (suc n) (x ∷ xs) = x ∷ take n xs

  unfoldable pub drop : ℕ → List A → List A
  drop zero xs = xs
  drop (suc n) [] = []
  drop (suc n) (x ∷ xs) = drop n xs

  unfoldable pub page : ℕ → ℕ → List A → List A
  page p limit xs = take limit (drop ((p - 1) * limit) xs)

  -- the first pages, one after the other
  unfoldable pub pages : ℕ → ℕ → List A → List A
  pages zero limit xs = []
  pages (suc k) limit xs = pages k limit xs ++ page (suc k) limit xs

  take_nil : (n : ℕ) → take n [] ≡ []
  unfolding take
  take_nil zero = refl
  take_nil (suc n) = refl

  take_append : (m n : ℕ) (xs : List A) → take m xs ++ take n (drop m xs) ≡ take (m + n) xs
  unfolding take drop
  take_append zero n xs = let shorter : n ≡ 0 + n = ground arith in ap (λ m. take m xs) shorter
  take_append (suc m) n [] = take_nil n ∙ sym (take_nil (suc m + n))
  take_append (suc m) n (x ∷ xs) =
      let longer : suc (m + n) ≡ suc m + n = ground arith in
      ap (λ ys. x ∷ ys) (take_append m n xs) ∙ ap (λ k. take k (x ∷ xs)) longer

  pages-take : (k limit : ℕ) (xs : List A) → pages k limit xs ≡ take (k * limit) xs
  unfolding pages page take
  pages-take zero limit xs =
      let nothing : 0 ≡ 0 * limit = ground arith in ap (λ m. take m xs) nothing
  pages-take (suc k) limit xs =
      let next : k * limit + limit ≡ suc k * limit = ground arith in
      let before : k * limit ≡ (suc k - 1) * limit = ground arith in
      ap (λ ys. ys ++ page (suc k) limit xs) (pages-take k limit xs)
      ∙ ap (λ m. take (k * limit) xs ++ take limit (drop m xs)) (sym before)
      ∙ take_append (k * limit) limit xs
      ∙ ap (λ m. take m xs) next

  pub take_all : (n : ℕ) (xs : List A) → length xs ≤ n → take n xs ≡ xs
  unfolding take
  take_all zero [] h = refl
  take_all zero (x ∷ xs) h = ground arith
  take_all (suc n) [] h = refl
  take_all (suc n) (x ∷ xs) h = ground (arith, take_all n xs)

  pub take-length : (n : ℕ) (xs : List A) → length (take n xs) ≤ n
  unfolding take
  take-length zero xs = ground arith
  take-length (suc n) [] = ground arith
  take-length (suc n) (x ∷ xs) = ground (arith, take-length n xs)

  -- A page has at most `limit` rows.
  pub page-length : (p limit : ℕ) (xs : List A) → length (page p limit xs) ≤ limit
  unfolding page
  page-length p limit xs = take-length limit (drop ((p - 1) * limit) xs)

  -- Enough pages, one after the other, are the whole list.
  pub pages-whole : (k limit : ℕ) (xs : List A) → length xs ≤ k * limit → pages k limit xs ≡ xs
  pages-whole k limit xs h = pages-take k limit xs ∙ take_all (k * limit) xs h

  All-take : (P : A → Type 0) (n : ℕ) (xs : List A) → All P xs → All P (take n xs)
  unfolding take
  All-take P zero xs h = tt
  All-take P (suc n) [] h = tt
  All-take P (suc n) (x ∷ xs) h = (h.0, All-take P n xs h.1)

  All-drop : (P : A → Type 0) (n : ℕ) (xs : List A) → All P xs → All P (drop n xs)
  unfolding drop
  All-drop P zero xs h = h
  All-drop P (suc n) [] h = tt
  All-drop P (suc n) (x ∷ xs) h = All-drop P n xs h.1

  pub All-page : (P : A → Type 0) (p limit : ℕ) (xs : List A) → All P xs → All P (page p limit xs)
  unfolding page
  All-page P p limit xs h = All-take P limit _ (All-drop P ((p - 1) * limit) xs h)

  pub take-take : (m n : ℕ) (xs : List A) → m ≤ n → take m (take n xs) ≡ take m xs
  unfolding take
  take-take zero n xs h = refl
  take-take (suc m) zero xs h = elim h [ ]
  take-take (suc m) (suc n) [] h = refl
  take-take (suc m) (suc n) (x ∷ xs) h = ap (λ ys. x ∷ ys) (take-take m n xs (ground arith))

  pub take-drop : (n : ℕ) (xs : List A) → take n xs ++ drop n xs ≡ xs
  unfolding take drop
  take-drop zero xs = refl
  take-drop (suc n) [] = refl
  take-drop (suc n) (x ∷ xs) = ap (λ ys. x ∷ ys) (take-drop n xs)

  drop_nil : (n : ℕ) → drop n [] ≡ []
  unfolding drop
  drop_nil zero = refl
  drop_nil (suc n) = refl

  pub drop-drop : (m n : ℕ) (xs : List A) → drop n (drop m xs) ≡ drop (m + n) xs
  unfolding drop
  drop-drop zero n xs = let e : n ≡ 0 + n = ground arith in ap (λ k. drop k xs) e
  drop-drop (suc m) n [] = drop_nil n ∙ sym (drop_nil (suc m + n))
  drop-drop (suc m) n (x ∷ xs) =
      let e : suc (m + n) ≡ suc m + n = ground arith in
      drop-drop m n xs ∙ ap (λ k. drop k (x ∷ xs)) e

  pub length-drop : (n : ℕ) (xs : List A) → length (drop n xs) ≡ length xs - n
  unfolding drop
  length-drop zero xs = ground arith
  length-drop (suc n) [] = ground arith
  length-drop (suc n) (x ∷ xs) = ground (arith, length-drop n xs)

  pub take-length_long : (n : ℕ) (xs : List A) → n ≤ length xs → length (take n xs) ≡ n
  unfolding take
  take-length_long zero xs h = refl
  take-length_long (suc n) [] h = elim h [ ]
  take-length_long (suc n) (x ∷ xs) h = ground (arith, take-length_long n xs)

  pub drop_all : (n : ℕ) (xs : List A) → length xs ≤ n → drop n xs ≡ []
  unfolding drop
  drop_all zero [] h = refl
  drop_all zero (x ∷ xs) h = elim h [ ]
  drop_all (suc n) [] h = refl
  drop_all (suc n) (x ∷ xs) h = drop_all n xs (ground arith)
