-- ===== src/Erp/Proxy.antt =====
-- What the proxy does to the back end, and what becomes of a request whose token has run out.
use ustabobo_bot.Base.{
  ◌≡◌, refl, Bool, false, Option, none, some, ◌==◌, ◌⊎◌, inl, inr, arith, subst, ◌∙◌, Bool-cases,
}
use ustabobo_bot.Schema.{Text}
use ustabobo_bot.Erp.{
  Cookies, filled, Request, Reply, sends_body, Backend, proxy, Renewal, lost, refused, renewed,
  token_of, do_refresh, retry, after_first, after_retry,
}

module _ {S : Type 0} (backend : Backend S) where
  -- A guard refuses a request before its handler runs, and a refresh writes nothing.
  pub record IsGuarded : Type 0 where
    pub unchanged :
        (used : Bool) (token : Option Text) (r : Request) (s : S) (reply : Reply)
        → (backend.answer used token r s).0 ≡ some reply
        → reply.status ≡ 401
        → (backend.answer used token r s).1 ≡ s
    pub renewal : (refresh : Text) (s : S) → (backend.renew refresh s).1 ≡ s

  -- the state after nothing, or after the request with some token
  abbrev pub IsOnce : Request → S → S → Type 0
  IsOnce r s s' =
      (s' ≡ s) ⊎ ((used : Bool) × (token : Option Text) × (s' ≡ (backend.answer used token r s).1))

  token_of-state : (x : Renewal × S) → (token_of backend x).1 ≡ x.1
  token_of-state (lost, s) = refl
  token_of-state (refused status, s) = refl
  token_of-state (renewed t, s) = refl

  after_retry-state :
      (token : Text) (x : Option Reply × S) (c : Cookies) → (after_retry backend token x c).1 ≡ x.1
  after_retry-state token (none, s) c = refl
  after_retry-state token (some reply, s) c = refl

  do_refresh-same :
      IsGuarded → (refresh : Option Text) (s : S) → (do_refresh backend refresh s).1 ≡ s
  do_refresh-same guarded none s = refl
  do_refresh-same guarded (some t) s = token_of-state (backend.renew t s) ∙ guarded.renewal t s

  retry-IsOnce :
      (r : Request) (x : Option (Option Text) × S) (c : Cookies)
      → IsOnce r x.1 (retry backend r x c).1
  retry-IsOnce r (none, s) c = inl refl
  retry-IsOnce r (some none, s) c = inl refl
  retry-IsOnce r (some (some token), s) c =
      rw (after_retry-state token (backend.answer (sends_body r) (some token) r s) c)
        (inr (sends_body r, some token, refl))

  after_first-IsOnce :
      IsGuarded
      → (r : Request) (x : Option Reply × S) (c : Cookies) (s : S) → IsOnce r s x.1
      → ((reply : Reply) → x.0 ≡ some reply → reply.status ≡ 401 → x.1 ≡ s)
      → IsOnce r s (after_first backend r x c).1
  after_first-IsOnce guarded r (none, t) c s once same = once
  after_first-IsOnce guarded r (some reply, t) c s once same =
      elim (Bool-cases (reply.status == 401)) [
        | inr passed ↦ rw passed once
        | inl expired ↦
            let back : (do_refresh backend (filled c.refresh) t).1 ≡ s =
              do_refresh-same guarded (filled c.refresh) t ∙ same reply refl (ground arith) in
            rw expired (
              subst
                (λ u. IsOnce r u (retry backend r (do_refresh backend (filled c.refresh) t) c).1)
                back (retry-IsOnce r (do_refresh backend (filled c.refresh) t) c))
      ]

  -- A request changes the back end's state once at most, also where it is sent again with a new token.
  pub proxy-IsOnce :
      IsGuarded → (r : Request) (c : Cookies) (s : S) → IsOnce r s (proxy backend r c s).1
  unfolding proxy
  proxy-IsOnce guarded r c s =
      after_first-IsOnce guarded r (backend.answer false (filled c.token) r s) c s
        (inr (false, filled c.token, refl)) (guarded.unchanged false (filled c.token) r s)

  pub after_first-expired :
      (r : Request) (x : Option Reply × S) (c : Cookies) (first : Reply) (refresh token : Text)
      (s : S)
      → x.0 ≡ some first
      → first.status ≡ 401
      → filled c.refresh ≡ some refresh
      → do_refresh backend (some refresh) x.1 ≡ (some (some token), s)
      → after_first backend r x c ≡ retry backend r (some (some token), s) c
  after_first-expired r (none, t) c first refresh token s reached expired kept again = absurd cc
  after_first-expired r (some reply, t) c first refresh token s reached expired kept again =
      let same : reply.status ≡ 401 = cc in rw (same, kept, again) refl
