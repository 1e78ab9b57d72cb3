-- ===== src/Settings/Kept.antt =====
-- The handlers of the settings flow leave the identities alone but for the update in the hook.
use kratos.Base.{if◌then◌else◌, ◌++◌, Option-cases, Result-cases, err, ok, Result, false, true}
use kratos.Base.{Bool, inr, inl, ◌∷◌, Err, [], List, some, none, Option, String, ℕ, or_end_cases}
use kratos.Base.{after_cases, refl, ◌≡◌}
use kratos.Identity.{Identity}
use kratos.Continuity.{abort}
use kratos.Settings.Written.{is_aal_not_satisfied, is_no_active_session, forward, is_re_auth}
use kratos.Settings.Written.{asks_for_ui, ErrorEnv, Answer, write_flow_error, write_on_flow}
use kratos.Settings.Written.{show_error, store_shown, prepare_replacement, replaced, is_expired}
use kratos.Settings.{settings_expired, World, SettingsFlow, FlowEnv, Populator, new_flow}
use kratos.Settings.{populate_all, from_old_flow, stored, blank_flow, update_flow, create_flow}

module _ {P B X : Type 0} (E : FlowEnv P B) where
  populated_keeps :
      (strategies : List Populator) (i : Identity) (f : SettingsFlow) (w : World B X)
      → (populate_all E strategies i f w).0.pool ≡ w.pool
  unfolding populate_all
  populated_keeps [] i f w = refl
  populated_keeps (strategy ∷ rest) i f w =
      let aborted = abort E.continuity w.continuity (E.continuity_key strategy.id) in
      let w' = record w { continuity = aborted.0 } in
      or_end_cases (λ r. r.0.pool ≡ w.pool) w' aborted.1 _ (λ e. refl)
        λ _ _.
          or_end_cases (λ r. r.0.pool ≡ w.pool) w' (strategy.populate i f)
            (λ f'. populate_all E rest i f' w') (λ e. refl) λ f' _. populated_keeps rest i f' w'

  pub new_flow_keeps :
      (n : ℕ) (i : Option Identity) (t : String) (w : World B X)
      → (new_flow E n i t w).0.pool ≡ w.pool
  unfolding new_flow
  new_flow_keeps n none t w = or_end_cases (λ r. r.0.pool ≡ w.pool) w _ _ (λ e. refl) (λ _ _. refl)
  new_flow_keeps n (some i) t w =
      or_end_cases (λ r. r.0.pool ≡ w.pool) w (blank_flow E n i t) _ (λ e. refl)
        λ f _.
          let kept = populated_keeps E.strategies i f w in
          after_cases (λ r. r.0.pool ≡ w.pool) (populate_all E E.strategies i f w) _ (λ e _. kept)
            λ f' _.
              let w' = (populate_all E E.strategies i f w).0 in
              or_end_cases (λ r. r.0.pool ≡ w.pool) w' (E.sort_nodes f') (stored E w') (λ e. kept)
                λ f'' _.
                  or_end_cases (λ r. r.0.pool ≡ w.pool) w' (create_flow E f'' w'.flows) _
                    (λ e. kept) (λ _ _. kept)

  old_keeps :
      (n : ℕ) (i : Option Identity) (old : SettingsFlow) (w : World B X)
      → (from_old_flow E n i old w).0.pool ≡ w.pool
  unfolding from_old_flow
  old_keeps n i old w =
      let kept = new_flow_keeps n i old.type_ w in
      after_cases (λ r. r.0.pool ≡ w.pool) (new_flow E n i old.type_ w) _ (λ e _. kept)
        (λ f _. kept)

-- Either way of a test.
pub if_keeps :
    {B X T : Type 0} (x : X) (b : Bool) (one two : World B X × T)
    → one.0.pool ≡ x
    → two.0.pool ≡ x
    → (if b then one else two).0.pool ≡ x
if_keeps x true one two h k = h
if_keeps x false one two h k = k

module _ {P B X : Type 0} (E : FlowEnv P B) (W : ErrorEnv) where
  replacement_keeps :
      (w : World B X) (f : SettingsFlow) (i : Option Identity) (at : ℕ)
      → (prepare_replacement E W w f i at).0.pool ≡ w.pool
  unfolding prepare_replacement
  replacement_keeps w f i at =
      let kept = old_keeps E 1 i f w in
      after_cases (λ r. r.0.pool ≡ w.pool) (from_old_flow E 1 i f w) _ (λ e _. kept)
        λ a _.
          let w' = (from_old_flow E 1 i f w).0 in
          let a' = record a { messages = a.messages ++ settings_expired at ∷ [] } in
          or_end_cases (λ r. r.0.pool ≡ w.pool) w' (update_flow E a' w'.flows)
            (λ flows. (record w' { flows = flows }, ok a')) (λ e. kept) (λ _ _. kept)

  replaced_keeps :
      (x : X) (f : SettingsFlow) (e : Err) (r : World B X × Result SettingsFlow)
      → r.0.pool ≡ x
      → (replaced E W f e r).0.pool ≡ x
  replaced_keeps x f e (w, ok a) h = h
  replaced_keeps x f e (w, err inner) h = h

  store_keeps : (w : World B X) (f : SettingsFlow) → (store_shown E W w f).0.pool ≡ w.pool
  unfolding store_shown
  store_keeps w f = elim (Result-cases (E.sort_nodes f)) [
    | inr (e, bad) ↦ rw (bad, store_shown) refl
    | inl (f', sorted) ↦ elim (Result-cases (update_flow E f' w.flows)) [
      | inr (e, bad) ↦ rw (sorted, store_shown, bad) refl
      | inl (flows, done) ↦ rw (sorted, store_shown, done) refl
    ]
  ]

  shown_keeps :
      (w : World B X) (f : SettingsFlow) (i : Option Identity) (e : Err)
      → (show_error E W w f i e).0.pool ≡ w.pool
  unfolding show_error
  shown_keeps w f none e = elim (Result-cases (W.parse_error e f)) [
    | inr (e', bad) ↦ rw (bad, show_error) refl
    | inl (f', fine) ↦ rw (fine, show_error) refl
  ]
  shown_keeps w f (some i) e = elim (Result-cases (W.parse_error e f)) [
    | inr (e', bad) ↦ rw (bad, show_error) refl
    | inl (f', fine) ↦ elim (Option-cases (W.get_schema i.schema_id)) [
      | inr (e', bad) ↦ rw (fine, show_error, bad) refl
      | inl known ↦ rw (fine, show_error, known) (store_keeps w f')
    ]
  ]

  on_flow_keeps :
      (w : World B X) (f : SettingsFlow) (i : Option Identity) (e : Err)
      → (write_on_flow E W w f i e).0.pool ≡ w.pool
  unfolding write_on_flow
  on_flow_keeps w f i e = elim (Option-cases (is_expired e)) [
    | inr (at, late) ↦
        rw (late, write_on_flow)
          (replaced_keeps w.pool f e (prepare_replacement E W w f i at)
            (replacement_keeps w f i at))
    | inl unexpired ↦
        rw (unexpired, write_on_flow)
          (if_keeps w.pool (asks_for_ui e) _ _ refl
            (if_keeps w.pool (is_re_auth e) _ _ refl (shown_keeps w f i e)))
  ]

  found_keeps :
      (w : World B X) (f : Option SettingsFlow) (i : Option Identity) (e : Err)
      → (elim f as (λ _. World B X × Answer) [
        | none ↦ (w, forward W none e)
        | some f' ↦ write_on_flow E W w f' i e
      ]).0.pool
        ≡ w.pool
  found_keeps w none i e = refl
  found_keeps w (some f) i e = on_flow_keeps w f i e

  -- Writing an error leaves the identities as they are.
  pub write_flow_error_keeps :
      (w : World B X) (f : Option SettingsFlow) (i : Option Identity) (e : Err)
      → (write_flow_error E W w f i e).0.pool ≡ w.pool
  unfolding write_flow_error
  write_flow_error_keeps w f i e =
      if_keeps w.pool (is_no_active_session e) _ _ refl
        (if_keeps w.pool (is_aal_not_satisfied e) _ _ refl (found_keeps w f i e))
