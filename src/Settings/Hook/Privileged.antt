-- ===== src/Settings/Hook/Privileged.antt =====
-- What settings change of an identity when the session is not privileged.
use kratos.Base.{Result, after, string_eq, ◌==◌, ◌∷◌, ◌||◌, ◌∙◌, ◌+◌, ltb, ok, All, [], List}
use kratos.Base.{some, none, false, true, Bool, or_end_cases, after_cases, String, ℕ, ◌≡◌, ◌⊎◌}
use kratos.Base.{inl, inr, refl, Bool-cases, Result-cases}
use mathlib.Core.Path.{subst}
use kratos.Base.Dict.{HasUniqueKeys}
use kratos.Identity.{Identity}
use kratos.Identity.Manager.{Pool, update, new_manager_options}
use kratos.Identity.Manager.Protection.{IsProtected, update-IsProtected, update_failed}
use kratos.Session.{Session}
use kratos.Redirect.{Url}
use kratos.Settings.{state_success, FlowEnv, new_flow, get_flow}
use kratos.Settings.Kept.{new_flow_keeps}
use kratos.Settings.Hook.{return_to_of, run_all, updated, Response, wrote_flow, Work, PersistHook}
use kratos.Settings.Hook.{HookEnv, run_hooks, update_identity, manager_options, persisted}
use kratos.Settings.Hook.{post_settings_hook, show_success, respond, is_abort, unless_aborted}
use kratos.Flow.{type_api}

-- A hook that leaves the stored identities alone.
abbrev IsHarmless : {B X : Type 0} → PersistHook B X → Type 0
IsHarmless {B} {X} hook = (w : Work B X) → (hook.execute w).0.world.pool ≡ w.world.pool

run_hooks_keeps :
    {B X : Type 0} (hooks : List (PersistHook B X))
    → All IsHarmless hooks
    → (w : Work B X) → (run_hooks hooks w).0.world.pool ≡ w.world.pool
unfolding run_hooks
run_hooks_keeps [] h w = refl
run_hooks_keeps (hook ∷ rest) (h, hs) w = elim (Result-cases (hook.execute w).1) [
  | inl (u, done) ↦ rw (done, run_hooks) (run_hooks_keeps rest hs (hook.execute w).0 ∙ h w)
  | inr (e, failed) ↦ elim (Bool-cases (is_abort e)) [
    | inl aborts ↦ rw (failed, run_hooks, aborts) (h w)
    | inr fails ↦ rw (failed, run_hooks, fails) (h w)
  ]
]

module _ {P B : Type 0} (E : FlowEnv P B) (I : Pool) (H : HookEnv B I.State) where
  -- The identities `p'` are those of `p` after an update of one that protects it.
  abbrev pub IsProtectedUpdate : I.State → I.State → Type 0
  IsProtectedUpdate p p' =
      (original : Identity) × (stored : Identity) × (I.get_identity_confidential p stored.id
        ≡ ok original)
      × (I.update_identity p stored ≡ ok p')
      × IsProtected original stored

  abbrev Keeps : {T : Type 0} → I.State → Work B I.State × Result T → Type 0
  Keeps p r = r.0.world.pool ≡ p

  show_success_keeps :
      (n : ℕ) (w : Work B I.State) → (show_success E I H n w).0.world.pool ≡ w.world.pool
  unfolding show_success
  show_success_keeps n w =
      let begun = new_flow E n (some w.identity) w.flow.type_ w.world in
      let kept = new_flow_keeps E n (some w.identity) w.flow.type_ w.world in
      or_end_cases (Keeps w.world.pool) (record w { world = begun.0 }) begun.1 _ (λ e. kept)
        λ f _. or_end_cases (Keeps w.world.pool) _ _ _ (λ e. kept) (λ _ _. kept)

  respond_keeps :
      (url : Url) (w : Work B I.State) → (respond E I H url w).0.world.pool ≡ w.world.pool
  unfolding respond
  respond_keeps url w = elim (Bool-cases (w.flow.type_ == type_api || H.is_json)) [
    | inr redirects ↦ rw (respond, redirects) refl
    | inl writes ↦
        rw (respond, writes)
          (or_end_cases (λ r. r.0.world.pool ≡ w.world.pool) w (get_flow E w.flow.id w.world.flows)
            (λ f. (w, ok (wrote_flow f))) (λ e. refl) (λ _ _. refl))
  ]

  unless_aborted_keeps :
      (b : Bool) (url : Url) (w : Work B I.State)
      → (unless_aborted E I H b w (respond E I H url)).0.world.pool ≡ w.world.pool
  unless_aborted_keeps true url w = respond_keeps url w
  unless_aborted_keeps false url w = refl

  persisted_keeps :
      (settings_type : String) (url : Url) (w : Work B I.State)
      → All IsHarmless (H.post_persist settings_type)
      → (persisted E I H settings_type none url w).0.world.pool ≡ w.world.pool
  unfolding persisted
  persisted_keeps settings_type url w post =
      let w0 = record w { flow = record w.flow { state = state_success } } in
      let shown = show_success_keeps 0 w0 in
      let w1 = (show_success E I H 0 w0).0 in
      after_cases (Keeps w.world.pool) (show_success E I H 0 w0) _ (λ e _. shown)
        λ _ _.
          let ran = run_hooks_keeps (H.post_persist settings_type) post w1 ∙ shown in
          after_cases (Keeps w.world.pool) (run_hooks (H.post_persist settings_type) w1)
            (λ w2 goes_on. unless_aborted E I H goes_on w2 (respond E I H url)) (λ e _. ran)
            (λ goes_on _. unless_aborted_keeps goes_on url _ ∙ ran)

  module _ (s : Session)
      (old : ltb E.now (s.authenticated_at + H.privileged_session_max_age) ≡ false) where
    -- The identity that the validator makes of the one at hand, and the stored ones, have each
    -- credentials type once.
    abbrev IsRegular : Work B I.State → Type 0
    IsRegular w =
        HasUniqueKeys (H.run_validator w.identity).0.credentials
        × ((id : ℕ) (i : Identity)
            → I.get_identity_confidential w.world.pool id ≡ ok i
            → HasUniqueKeys i.credentials)

    unprivileged :
        (new_manager_options (manager_options E I H s)).allow_write_protected_traits ≡ false
    unfolding manager_options new_manager_options
    unprivileged = rw old refl

    update_identity-IsProtectedUpdate :
        (w : Work B I.State)
        → IsRegular w
        → let p = (update_identity E I H (some s) w).0.world.pool in
          (p ≡ w.world.pool) ⊎ IsProtectedUpdate w.world.pool p
    unfolding update_identity
    update_identity-IsProtectedUpdate w (valid, stored) =
        let r = update I H.run_validator w.world.pool w.identity (manager_options E I H s) in
        elim (Result-cases r.result) [
          | inr (e, failed) ↦ inl (
              update_failed I H.run_validator w.world.pool w.identity (manager_options E I H s)
                failed)
          | inl (tt, done) ↦
              let (original, found, written, safe) =
                update-IsProtected I H.run_validator w.world.pool w.identity
                  (manager_options E I H s) valid (λ o found. stored _ o found) unprivileged done in
              inr (original, (H.run_validator w.identity).0, found, written, safe)
        ]

    abbrev Ends : Work B I.State → Work B I.State × Result Response → Type 0
    Ends w r = (r.0.world.pool ≡ w.world.pool) ⊎ IsProtectedUpdate w.world.pool r.0.world.pool

    later :
        (w : Work B I.State) (p p' : I.State)
        → p' ≡ p
        → (p ≡ w.world.pool) ⊎ IsProtectedUpdate w.world.pool p
        → (p' ≡ w.world.pool) ⊎ IsProtectedUpdate w.world.pool p'
    later w p p' same h = rw same h

    -- From the update on.
    updates :
        (settings_type : String) (url : Url) (w : Work B I.State)
        → IsRegular w
        → All IsHarmless (H.post_persist settings_type)
        → Ends w (
            after
              (update_identity E I H (some s) w)
              λ w' _. persisted E I H settings_type none url w')
    updates settings_type url w regular post =
        let written = update_identity-IsProtectedUpdate w regular in
        let w' = (update_identity E I H (some s) w).0 in
        after_cases (Ends w) (update_identity E I H (some s) w) _ (λ e _. written)
          λ _ _. later w w'.world.pool _ (persisted_keeps settings_type url w' post) written

    unless_aborted-Ends :
        (b : Bool) (settings_type : String) (url : Url) (w : Work B I.State)
        → IsRegular w
        → All IsHarmless (H.post_persist settings_type)
        → Ends w (unless_aborted E I H b w (updated E I H settings_type none (some s) url))
    unless_aborted-Ends true settings_type url w regular post =
        updates settings_type url w regular post
    unless_aborted-Ends false settings_type url w regular post = inl refl

    carried :
        (w w1 : Work B I.State) (r : Work B I.State × Result Response)
        → w1.world.pool ≡ w.world.pool
        → Ends w1 r
        → Ends w r
    carried w w1 r same h =
        subst (λ p. (r.0.world.pool ≡ p) ⊎ IsProtectedUpdate p r.0.world.pool) same h

    -- A settings submission whose session was authenticated too long ago to be privileged: after the
    -- hook the stored identities are as before, or those after an update of one identity against
    -- which it is protected, no credential and no verifiable address differing. The hooks before and
    -- after the write leave the identities alone, there is no callback, and the stored identities
    -- have each credentials type once, and so has what the validator makes of the new identity.
    pub post_settings_hook-IsProtectedUpdate :
        (settings_type : String) (w : Work B I.State)
        → All IsHarmless (H.pre_persist settings_type)
        → All IsHarmless (H.post_persist settings_type)
        → HasUniqueKeys
            (H.run_validator (run_hooks (H.pre_persist settings_type) w).0.identity).0.credentials
        → ((id : ℕ) (i : Identity)
            → I.get_identity_confidential w.world.pool id ≡ ok i
            → HasUniqueKeys i.credentials)
        → let p = (post_settings_hook E I H settings_type none (some s) w).0.world.pool in
          (p ≡ w.world.pool) ⊎ IsProtectedUpdate w.world.pool p
    unfolding post_settings_hook
    post_settings_hook-IsProtectedUpdate settings_type w pre post valid stored =
        or_end_cases (Ends w) w (return_to_of E I H settings_type w.flow)
          (run_all E I H settings_type none (some s) w) (λ e. inl refl)
          λ url _.
            let ran = run_hooks_keeps (H.pre_persist settings_type) pre w in
            let w1 = (run_hooks (H.pre_persist settings_type) w).0 in
            after_cases (Ends w) (run_hooks (H.pre_persist settings_type) w)
              (λ w' goes_on.
                unless_aborted E I H goes_on w' (updated E I H settings_type none (some s) url))
              (λ e _. inl ran)
              λ goes_on _.
                carried w w1
                  (unless_aborted E I H goes_on w1 (updated E I H settings_type none (some s) url))
                  ran
                  (unless_aborted-Ends goes_on settings_type url w1
                    (
                      valid,
                      λ id i found.
                          stored id i
                            (subst (λ p. I.get_identity_confidential p id ≡ ok i) ran found),
                    )
                    post)
