-- ===== src/Recovery/Quiet.antt =====
-- The steps of a recovery that leave the sessions, the issued cookies and the tokens alone.
use kratos.Recovery.{}
use kratos.Base.{
  check, Err, List, err, ok, Result, String, ℕ, suc, ◌≡◌, inl, inr, refl, Result-cases,
  Option-cases, ◌∙◌,
}
use kratos.Session.{Session}
use kratos.Session.Manager.Cookie.{Issued}
use kratos.Flow.{type_browser}
use kratos.Recovery.Flow.{RecoveryFlow, Message}
use kratos.Recovery.{
  successful, is_expired, or_bad_url, fresh, or_retry, store_settings, after_upsert, to_settings,
  retry_with_message, SettingsFlow, extended, retry_with_error, begin_settings, create_flow,
  created, World, Outcome, Env,
}

module _ {B X : Type 0} where
  -- The second world has the sessions, the issued cookies and the tokens of the first.
  pub record IsQuiet (w v : World B X) : Type 0 where
    pub sessions : v.sessions ≡ w.sessions
    pub issued : v.issued ≡ w.issued
    pub tokens : v.tokens ≡ w.tokens

  pub same-IsQuiet : (w : World B X) → IsQuiet w w
  same-IsQuiet w = record { sessions = refl; issued = refl; tokens = refl }

  pub also : (w v u : World B X) → IsQuiet w v → IsQuiet v u → IsQuiet w u
  also w v u h k = record {
    sessions = k.sessions ∙ h.sessions;
    issued = k.issued ∙ h.issued;
    tokens = k.tokens ∙ h.tokens;
  }

module _ {P B X : Type 0} (E : Env P B) where
  created-IsQuiet : (w : World B X) (f : Result RecoveryFlow) → IsQuiet w (created E w f).0
  created-IsQuiet w (err e) = same-IsQuiet w
  created-IsQuiet w (ok f) = elim (Result-cases (create_flow E.flow f w.flows)) [
    | inl (flows, done) ↦
        rw (created, done) (record { sessions = refl; issued = refl; tokens = refl })
    | inr (e, refused) ↦ rw (created, refused) (same-IsQuiet w)
  ]

  pub message-IsQuiet :
      (w : World B X) (n : ℕ) (t : String) (message : Message)
      → IsQuiet w (retry_with_message E w n t message).0
  unfolding retry_with_message
  message-IsQuiet w n t message = created-IsQuiet w _

  pub retry_with_error-IsQuiet :
      (w : World B X) (n : ℕ) (t : String) (e : Err) → IsQuiet w (retry_with_error E w n t e).0
  unfolding retry_with_error
  retry_with_error-IsQuiet w n t e = elim (Result-cases (fresh E n t)) [
    | inr (e', refused) ↦ rw (refused, retry_with_error) (same-IsQuiet w)
    | inl (f, made) ↦ elim (Option-cases (is_expired e)) [
      | inl unexpired ↦
          rw (made, retry_with_error, unexpired) (created-IsQuiet w (E.parse_error e f))
      | inr (at, late) ↦ rw (made, retry_with_error, late) (message-IsQuiet w (suc n) t _)
    ]
  ]

  -- What holds of a retry and of what follows holds of the two together.
  pub or_retry_cases {ℓ κ} :
      {A : Type ℓ} (Q : World B X × Outcome → Type κ) (w : World B X) (r : Result A)
      (next : A → World B X × Outcome)
      → ((e : Err) → Q (retry_with_error E w 1 type_browser e))
      → ((a : A) → r ≡ ok a → Q (next a))
      → Q (or_retry E w r next)
  or_retry_cases Q w (err e) next retries goes_on = retries e
  or_retry_cases Q w (ok a) next retries goes_on = goes_on a refl

  pub retry-IsQuiet :
      (w v : World B X)
      → IsQuiet w v
      → (e : Err) → IsQuiet w (retry_with_error E v 1 type_browser e).0
  retry-IsQuiet w v h e = also w v _ h (retry_with_error-IsQuiet v 1 type_browser e)

  store-IsQuiet : (w : World B X) (sf : SettingsFlow) → IsQuiet w (store_settings E w sf).0
  store-IsQuiet w sf =
      or_retry_cases (λ a. IsQuiet w a.0) w
        (kratos.Settings.update_flow E.settings sf w.settings.flows) _
        (retry-IsQuiet w w (same-IsQuiet w))
        λ flows _. record { sessions = refl; issued = refl; tokens = refl }

  to_settings-IsQuiet :
      (w : World B X) (f : RecoveryFlow) (sf : SettingsFlow) → IsQuiet w (to_settings E w f sf).0
  to_settings-IsQuiet w f sf =
      or_retry_cases (λ a. IsQuiet w a.0) w (or_bad_url (E.take_over sf.request_url f.request_url))
        (λ url. or_retry E w (check E.post_hook) λ _. store_settings E w (successful E sf url))
        (retry-IsQuiet w w (same-IsQuiet w))
        λ url _.
          or_retry_cases (λ a. IsQuiet w a.0) w (check E.post_hook)
            (λ _. store_settings E w (successful E sf url)) (retry-IsQuiet w w (same-IsQuiet w))
            λ _ _. store-IsQuiet w (successful E sf url)

  begin-IsQuiet :
      (w : World B X) (f : RecoveryFlow) (s : Session) → IsQuiet w (begin_settings E w f s).0
  unfolding begin_settings
  begin-IsQuiet w f s =
      let begun = kratos.Settings.new_flow E.settings 2 s.identity type_browser w.settings in
      let w' = record w { settings = begun.0 } in
      let h : IsQuiet w w' = record { sessions = refl; issued = refl; tokens = refl } in
      or_retry_cases (λ a. IsQuiet w a.0) w' begun.1 (λ sf. to_settings E w' f sf)
        (retry-IsQuiet w w' h) λ sf _. also w w' _ h (to_settings-IsQuiet w' f sf)

  pub after_upsert-IsQuiet :
      (w : World B X) (f : RecoveryFlow) (s : Session) (r : List Session × Result Issued)
      → IsQuiet
          (record w { sessions = r.0; issued = extended w.issued r.1 })
          (after_upsert E w f s r).0
  after_upsert-IsQuiet w f s r =
      let w' = record w { sessions = r.0; issued = extended w.issued r.1 } in
      or_retry_cases (λ a. IsQuiet w' a.0) w' r.1 (λ _. begin_settings E w' f s)
        (retry-IsQuiet w' w' (same-IsQuiet w')) λ _ _. begin-IsQuiet w' f s
