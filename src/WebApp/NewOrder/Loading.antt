-- ===== src/WebApp/NewOrder/Loading.antt =====
-- webapp/app/new-order/page.tsx: loadInit, which asks the server again while it cannot be reached.
-- The wait between two attempts is left out. An attempt that starts another one would recur without
-- end if nothing bounded it: the recursion is on fuel, which four attempts suffice for.
use ustabobo_bot.Base.{
  ℕ, zero, suc, ◌+◌, ◌≤◌, ◌<◌, ◌≡◌, ◌⊎◌, inl, inr, Bool, true, false, ◌&&◌, Option, none, some, ltb,
  ◌==◌, refl, if◌then◌else◌, arith, Bool-cases,
}

-- what `fetchWebAppInit` comes to: data, "Failed to fetch", or another error
pub data Answer {ℓ} (A : Type ℓ) : Type ℓ where
  received : A → Answer A
  network_error other_error : Answer A

-- what the page then shows
pub data Shown {ℓ} (A : Type ℓ) : Type ℓ where
  loaded : A → Shown A
  unreachable failed : Shown A

abbrev pub max_init_retries : ℕ
max_init_retries = 3

module _ {ℓ} {A : Type ℓ} where
  -- `isNetworkError`
  abbrev pub is_network_error : Answer A → Bool
  is_network_error network_error = true
  is_network_error _ = false

  abbrev pub show : Answer A → Shown A
  show (received a) = loaded a
  show network_error = unreachable
  show other_error = failed

  -- `attempt`; the server's answer to the n-th request is `fetch n`. The result has the number of the
  -- last request, and is `none` where the fuel ran out.
  unfoldable pub attempt : (ℕ → Answer A) → ℕ → ℕ → Option (Shown A × ℕ)
  attempt fetch zero retry_count = none
  attempt fetch (suc fuel) retry_count =
      let again = attempt fetch fuel (retry_count + 1) in
      if is_network_error (fetch retry_count) && ltb retry_count max_init_retries
      then again
      else some (show (fetch retry_count), retry_count)

  -- `loadInit`
  unfoldable pub load_init : (ℕ → Answer A) → Option (Shown A × ℕ)
  unfolding attempt
  load_init fetch = attempt fetch 4 0

  abbrev pub UnreachedBefore : (ℕ → Answer A) → ℕ → Type 0
  UnreachedBefore fetch n = (k : ℕ) → k < n → is_network_error (fetch k) ≡ true

  -- the result of an attempt: what the answer to the last request says, which is the first answer that
  -- is no network error, or the fourth
  pub record Ends (fetch : ℕ → Answer A) (r : Shown A × ℕ) : Type ℓ where
    pub by_last : r.0 ≡ show (fetch r.1)
    pub bounded : r.1 ≤ max_init_retries
    pub unreached : UnreachedBefore fetch r.1
    pub final : (is_network_error (fetch r.1) ≡ false) ⊎ (r.1 ≡ max_init_retries)

  attempt-Ends :
      (fetch : ℕ → Answer A) (fuel n : ℕ)
      → n ≤ max_init_retries
      → max_init_retries < n + fuel
      → UnreachedBefore fetch n
      → (r : Shown A × ℕ) × (attempt fetch fuel n ≡ some r) × Ends fetch r
  unfolding attempt
  attempt-Ends fetch zero n small enough before = absurd (omega arith)
  attempt-Ends fetch (suc fuel) n small enough before =
      elim (Bool-cases (is_network_error (fetch n))) [
        | inr reached ↦ (
          (show (fetch n), n),
          rw reached,
          record { by_last = refl; bounded = small; unreached = before; final = inl reached },
        )
        | inl lost ↦ elim (Bool-cases (ltb n max_init_retries)) [
          | inr last ↦ (
            (show (fetch n), n),
            rw (lost, last),
            record {
              by_last = refl;
              bounded = small;
              unreached = before;
              final = inr (ground arith);
            },
          )
          | inl more ↦
              let so_far : UnreachedBefore fetch (n + 1) = λ k less. elim (Bool-cases (k == n)) [
                | inl now ↦ ground arith
                | inr earlier ↦ before k (ground arith)
              ] in
              let (r, same, ends) =
                attempt-Ends fetch fuel (n + 1) (ground arith) (omega arith) so_far in
              (r, rw (lost, more) same, ends)
        ]
      ]

  -- However the server answers, loading the page ends after at most four requests. It shows what the
  -- last of them brought, every earlier one failed in the network, and the last did not, unless it was
  -- the fourth.
  pub load_init-Ends :
      (fetch : ℕ → Answer A) → (r : Shown A × ℕ) × (load_init fetch ≡ some r) × Ends fetch r
  unfolding load_init
  load_init-Ends fetch = attempt-Ends fetch 4 0 (omega arith) (omega arith) (λ k h. elim h [ ])
