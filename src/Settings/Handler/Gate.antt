-- ===== src/Settings/Handler/Gate.antt =====
-- Which submissions of a settings flow change an identity.
use kratos.Base.{◌>>=◌, ◌==◌, ◌∙◌, ltb, err-ne-ok, none, Option, ap, nat_eq, ok-injective}
use kratos.Base.{>>=-eq-ok, ok, arith, List, some, String, ℕ, ◌≡◌, ◌⊎◌, Bool-cases, Result-cases}
use kratos.Base.{inl, inr, refl, ◌≤◌}
use kratos.Http.{Request}
use kratos.Identity.{Identity}
use kratos.Identity.Manager.{Pool}
use kratos.Session.{Session}
use kratos.Session.Manager.{fetch_from_request, does_session_satisfy}
use kratos.Session.Manager as Manager
use kratos.Settings.{World, SettingsFlow, FlowEnv, get_flow, valid}
use kratos.Settings.Hook.{HookEnv}
use kratos.Settings.Written.{ErrorEnv, is_panic}
use kratos.Settings.Kept.{if_keeps, write_flow_error_keeps}
use kratos.Settings.Handler.{Strategy, submit_settings_flow, session_of, get_flow_id, valid_for}
use kratos.Settings.Handler.{on_flow, or_not_found}

valid_parts :
    (now : ℕ) (f : SettingsFlow) (i : Identity) {u : Unit {0}}
    → valid now f i ≡ ok u
    → (now ≤ f.expires_at) × (f.identity_id ≡ i.id)
unfolding valid
valid_parts now f i h = ground (arith, h, nat_eq.beq_iff f.identity_id i.id)

valid_for_parts :
    (now : ℕ) (f : SettingsFlow) (i : Option Identity) {u : Unit {0}}
    → valid_for now f i ≡ ok u
    → (j : Identity) × (i ≡ some j) × (f.identity_id ≡ j.id) × (now ≤ f.expires_at)
valid_for_parts now f none h = elim (Bool-cases (ltb f.expires_at now)) [
  | inl late ↦ absurd (err-ne-ok (rw (valid_for, late) at h))
  | inr in_time ↦ absurd (err-ne-ok (rw (valid_for, in_time) at h))
]
valid_for_parts now f (some j) h =
    let (in_time, same) = valid_parts now f j h in (j, refl, same, in_time)

module _ {P B : Type 0} (E : FlowEnv P B) (A : Manager.Env) (aal : String)
    (table : List Session) where
  -- The session that a request shows, if it satisfies the required level.
  session_of_parts :
      (r : Request) (s : Session)
      → session_of E A aal table r ≡ ok s
      → (t : Session) × (fetch_from_request A table r ≡ ok t)
        × ((does_session_satisfy A t aal).1 ≡ ok tt)
        × ((does_session_satisfy A t aal).0 ≡ s)
  unfolding session_of
  session_of_parts r s h =
      let (t, found, rest) = >>=-eq-ok (fetch_from_request A table r) _ h in
      let (u, fine, same) = >>=-eq-ok (does_session_satisfy A t aal).1 _ rest in
      (t, found, fine, ok-injective same)

  found_by :
      (id : ℕ) (flows : List SettingsFlow) (f : SettingsFlow)
      → (get_flow_id id >>= λ rid. get_flow E rid flows) ≡ ok f
      → get_flow E id flows ≡ ok f
  unfolding get_flow_id
  found_by id flows f h = elim (Bool-cases (id == 0)) [
    | inl none_given ↦ absurd (err-ne-ok (rw (none_given, get_flow_id) at h))
    | inr given ↦ rw (given, get_flow_id) at h
  ]

  module _ (I : Pool) (W : ErrorEnv) (H : HookEnv B I.State)
      (strategies : List (Strategy B I.State)) where
    -- A flow that may be submitted with a session: it is unexpired and of the session's identity.
    abbrev pub IsOpenFor : Request → SettingsFlow → Type 0
    IsOpenFor r f =
        (t : Session) × (i : Identity) × (fetch_from_request A table r ≡ ok t)
        × ((does_session_satisfy A t aal).1 ≡ ok tt)
        × ((does_session_satisfy A t aal).0.identity ≡ some i)
        × (f.identity_id ≡ i.id)
        × (E.now ≤ f.expires_at)

    on_flow_kept :
        (r : Request) (w : World B I.State) (f : SettingsFlow)
        → ((on_flow E A aal table I W H strategies r w f).0.pool ≡ w.pool) ⊎ IsOpenFor r f
    on_flow_kept r w f = elim (Result-cases (session_of E A aal table r)) [
      | inr (e, refused) ↦
          rw (on_flow, refused) (inl (write_flow_error_keeps E W w (some f) none e))
      | inl (s, shown) ↦ elim (Result-cases (valid_for E.now f s.identity)) [
        | inr (e, refused) ↦ inl (
            rw (on_flow, shown, refused)
              (if_keeps w.pool (is_panic e) _ _ refl
                (write_flow_error_keeps E W w (some f) s.identity e)))
        | inl (u, fine) ↦
            let (t, found, enough, same) = session_of_parts r s shown in
            let (i, known, owner, in_time) = valid_for_parts E.now f s.identity fine in
            inr (t, i, found, enough, ap (λ x. x.identity) same ∙ known, owner, in_time)
      ]
    ]

    -- A submission of a settings flow changes the identities only if its flow is in the table, has
    -- not expired, and belongs to the identity of the active session that the request shows, and
    -- this session satisfies the level that settings require.
    pub submit_settings_flow-IsOpenFor :
        (r : Request) (id : ℕ) (w : World B I.State)
        → ((submit_settings_flow E A aal table I W H strategies r id w).0.pool ≡ w.pool)
          ⊎ ((f : SettingsFlow) × (get_flow E id w.flows ≡ ok f) × IsOpenFor r f)
    unfolding submit_settings_flow
    submit_settings_flow-IsOpenFor r id w =
        elim (Result-cases (get_flow_id id >>= λ rid. get_flow E rid w.flows)) [
          | inr (e, missing) ↦ inl (
              rw (missing, submit_settings_flow)
                (write_flow_error_keeps E W w none none (or_not_found e)))
          | inl (f, found) ↦ elim (on_flow_kept r w f) [
            | inl same ↦ inl (rw (found, submit_settings_flow) same)
            | inr open_for ↦ inr (f, found_by id w.flows f found, open_for)
          ]
        ]
