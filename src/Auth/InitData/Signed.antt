-- ===== src/Auth/InitData/Signed.antt =====
-- Whom the check of the init data lets in.
use ustabobo_bot.Base.{
  ℕ, suc, ◌+◌, ◌≤◌, ◌<◌, ◌≡◌, ◌≢◌, refl, ◌⊎◌, inl, inr, true, false, Option, none, some, List, ◌==◌,
  length, arith, Bool-cases, Option-cases,
}
use ustabobo_bot.Base.Int.{ℤ, pos}
use ustabobo_bot.Base.Exec.{ok}
use ustabobo_bot.Schema.{Text}
use ustabobo_bot.Text.{codes, trim}
use ustabobo_bot.Auth.InitData.{
  Platform, ValidatedInitData, clock_skew, get, filled, is_stale, unwrapped, check_string_raw,
  check_string_decoded, is_signed, telegram_user, checked, validate,
}

-- the text that was sent, unwrapped
abbrev pub sent : Platform → Text → Text
sent host init = unwrapped host (trim init)

-- what an accepted text must show
pub record IsGenuine (host : Platform) (now max_age : ℕ) (init : Text) (v : ValidatedInitData)
    : Type 0 where
  pub check : Text
  pub covers :
      (check ≡ check_string_raw host (sent host init))
      ⊎ (check ≡ check_string_decoded host (host.query (sent host init)))
  pub signed : host.equal_hex (host.hmac_hex check) v.hash ≡ true
  pub sent_hash : get (codes "hash") (host.query (sent host init)) ≡ some v.hash
  pub named : v.user ≢ 0
  pub fresh : (n : ℕ) → v.auth_date ≡ pos (suc n) → 0 < max_age → now ≤ suc n + max_age + clock_skew

module _ (host : Platform) (now max_age : ℕ) (init : Text) (v : ValidatedInitData) where
  filled-some : (o : Option Text) (s : Text) → filled o ≡ some s → o ≡ some s
  filled-some none s h = absurd (ground arith)
  filled-some (some t) s h = ground arith

  signed_lem :
      (hash check : Text)
      → is_signed host hash check ≡ true
      → host.equal_hex (host.hmac_hex check) hash ≡ true
  unfolding is_signed
  signed_lem hash check h = ground arith

  fresh_lem :
      (date : ℤ) (n : ℕ)
      → is_stale now max_age date ≡ false
      → date ≡ pos (suc n)
      → 0 < max_age
      → now ≤ suc n + max_age + clock_skew
  fresh_lem date n h is_n some_age = ground arith

  module _ (raw : Text) (params : List (Text × Text)) (hash : Text) where
    checked-user :
        checked host now max_age raw params hash ≡ ok v
        → (v.hash ≡ hash) × (v.user ≢ 0) × (is_stale now max_age v.auth_date ≡ false)
    checked-user h = elim (Option-cases (telegram_user host params)) [
      | inl nobody ↦ absurd (ground arith)
      | inr (id, somebody) ↦ (ground arith, ground arith, ground arith)
    ]

    checked-signed :
        checked host now max_age raw params hash ≡ ok v
        → (is_signed host hash (check_string_raw host raw) ≡ true)
          ⊎ (is_signed host hash (check_string_decoded host params) ≡ true)
    checked-signed h = elim (Bool-cases (is_signed host hash (check_string_raw host raw))) [
      | inl signs ↦ inl signs
      | inr unsigned ↦ elim (Bool-cases (is_signed host hash (check_string_decoded host params))) [
        | inl signs ↦ inr signs
        | inr twice_unsigned ↦ absurd (ground arith)
      ]
    ]

  genuine :
      (hash : Text)
      → filled (get (codes "hash") (host.query (sent host init))) ≡ some hash
      → checked host now max_age (sent host init) (host.query (sent host init)) hash ≡ ok v
      → IsGenuine host now max_age init v
  genuine hash there h =
      let (its_hash, named, young) =
        checked-user (sent host init) (host.query (sent host init)) hash h in
      let found : get (codes "hash") (host.query (sent host init)) ≡ some v.hash =
        rw its_hash (filled-some _ hash there) in
      elim (checked-signed (sent host init) (host.query (sent host init)) hash h) [
        | inl signs ↦ record {
          check = check_string_raw host (sent host init);
          covers = inl refl;
          signed = rw its_hash (signed_lem hash _ signs);
          sent_hash = found;
          named = named;
          fresh = λ n. fresh_lem v.auth_date n young;
        }
        | inr signs ↦ record {
          check = check_string_decoded host (host.query (sent host init));
          covers = inr refl;
          signed = rw its_hash (signed_lem hash _ signs);
          sent_hash = found;
          named = named;
          fresh = λ n. fresh_lem v.auth_date n young;
        }
      ]

  -- Init data is accepted only with a hash, found among its parameters, that the bot's token gives for
  -- one of the two texts of its other parameters, and with a user; if it has a date and an age limit is
  -- set, only up to two minutes past the limit. Without a date there is no limit.
  pub validate-IsGenuine : validate host now max_age init ≡ ok v → IsGenuine host now max_age init v
  unfolding validate
  validate-IsGenuine h = elim (Bool-cases (length (trim init) == 0)) [
    | inl empty ↦ absurd (ground arith)
    | inr full ↦ elim (Option-cases (filled (get (codes "hash") (host.query (sent host init))))) [
      | inl missing ↦ absurd (ground arith)
      | inr (hash, there) ↦ genuine hash there (ground arith)
    ]
  ]
