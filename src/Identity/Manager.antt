-- ===== src/Identity/Manager.antt =====
-- identity/manager.go: creating and updating identities, and the guard on protected fields.
pub mod Protection
use kratos.Base.{ℕ, ◌+◌, ◌≡◌, String, Option, none, some, List, [], ◌∷◌, Bool, true, false, not}
use kratos.Base.{◌&&◌, length, if◌then◌else◌, ◌==◌, string_eq, nat_eq}
use kratos.Base.{Result, ok, err, Err, invalid_traits, bad_request, protected_field_modified}
use kratos.Identity.{Identity, VerifiableAddress}
use kratos.Identity.Equality.{credentials_equal}

-- The privileged identity pool, over an unknown state. A failed update is a rolled back
-- transaction, so it gives no new state.
pub record Pool : Type 1 where
  pub State : Type 0
  pub get_identity_confidential : State → ℕ → Result Identity
  pub create_identity : State → Identity → Result State
  pub update_identity : State → Identity → Result State

pub record ManagerOptions : Type 0 where
  pub expose_validation_errors : Bool
  pub allow_write_protected_traits : Bool

-- The functional options.
pub data ManagerOption : Type 0 where
  expose_validation_errors_for_internal_type_assertion : ManagerOption
  allow_write_protected_traits : ManagerOption

apply_option : ManagerOption → ManagerOptions → ManagerOptions
apply_option expose_validation_errors_for_internal_type_assertion o = record o {
  expose_validation_errors = true;
}
apply_option allow_write_protected_traits o = record o { allow_write_protected_traits = true }

apply_options : List ManagerOption → ManagerOptions → ManagerOptions
apply_options [] o = o
apply_options (f ∷ opts) o = apply_options opts (apply_option f o)

unfoldable pub new_manager_options : List ManagerOption → ManagerOptions
unfolding apply_options apply_option
new_manager_options opts =
    apply_options opts
      (record { expose_validation_errors = false; allow_write_protected_traits = false })

-- reflect.DeepEqual on verifiable addresses.
abbrev pub bool_eq : Bool → Bool → Bool
bool_eq true b = b
bool_eq false b = not b

abbrev pub same_time : Option ℕ → Option ℕ → Bool
same_time none none = true
same_time none (some _) = false
same_time (some _) none = false
same_time (some t) (some u) = t == u

abbrev pub same_address : VerifiableAddress → VerifiableAddress → Bool
same_address a b =
    a.id == b.id
    && a.value == b.value
    && bool_eq a.verified b.verified
    && a.via == b.via
    && a.status == b.status
    && same_time a.verified_at b.verified_at
    && a.identity_id == b.identity_id
    && a.nid == b.nid

abbrev pub same_addresses : List VerifiableAddress → List VerifiableAddress → Bool
same_addresses [] [] = true
same_addresses [] (_ ∷ _) = false
same_addresses (_ ∷ _) [] = false
same_addresses (a ∷ as') (b ∷ bs) = same_address a b && same_addresses as' bs

-- The result, and what `*updated` is afterwards.
unfoldable pub requires_privileged_access :
    Identity → Identity → ManagerOptions → Result (Unit {0}) × Identity
requires_privileged_access original updated o =
    if o.allow_write_protected_traits
    then (ok tt, updated)
    else if not (credentials_equal updated.credentials original.credentials)
    then (err protected_field_modified, original)
    else if not (same_addresses original.verifiable_addresses updated.verifiable_addresses)
        && not (length original.verifiable_addresses + length updated.verifiable_addresses == 0)
    then (err protected_field_modified, original)
    else (ok tt, updated)

-- What an operation leaves: the pool, the caller's identity, and the returned error.
pub record Outcome (S : Type 0) : Type 0 where
  pub pool : S
  pub identity : Identity
  pub result : Result (Unit {0})

-- The identity validator runs the JSON schema and its extensions, which write to the identity.
module _ (P : Pool) (run_validator : Identity → Identity × Result (Unit {0})) where
  wrap_validation : ManagerOptions → Result (Unit {0}) → Result (Unit {0})
  wrap_validation o (ok _) = ok tt
  wrap_validation o (err (invalid_traits why)) =
      if o.expose_validation_errors then err (invalid_traits why) else err (bad_request why)
  wrap_validation o (err e) = err e

  unfoldable pub validate : ManagerOptions → Identity → Identity × Result (Unit {0})
  unfolding wrap_validation
  validate o i = let (i', r) = run_validator i in (i', wrap_validation o r)

  unfoldable pub store : P.State → Identity → Result P.State → Outcome P.State
  store s i (ok s') = record { pool = s'; identity = i; result = ok tt }
  store s i (err e) = record { pool = s; identity = i; result = err e }

  abbrev refuse : P.State → Identity → Err → Outcome P.State
  refuse s i e = record { pool = s; identity = i; result = err e }

  unfoldable pub create : P.State → Identity → List ManagerOption → Outcome P.State
  unfolding store
  create s i opts =
      let (i', checked) = validate (new_manager_options opts) i in
      elim checked [ err e ↦ refuse s i' e | ok _ ↦ store s i' (P.create_identity s i') ]

  -- The end of Update and of SetTraits: the guard, then the database.
  unfoldable pub guarded_update : P.State → Identity → Identity → ManagerOptions → Outcome P.State
  guarded_update s original updated o =
      let (access, updated') = requires_privileged_access original updated o in
      elim access [
        | err e ↦ refuse s updated' e
        | ok _ ↦ store s updated' (P.update_identity s updated')
      ]

  unfoldable pub update : P.State → Identity → List ManagerOption → Outcome P.State
  update s updated opts =
      let o = new_manager_options opts in
      let (i, checked) = validate o updated in
      elim checked [
        | err e ↦ refuse s i e
        | ok _ ↦ elim (P.get_identity_confidential s i.id) [
          | err e ↦ refuse s i e
          | ok original ↦ guarded_update s original i o
        ]
      ]

  unfoldable pub update_schema_id :
      P.State → ℕ → String → List ManagerOption → P.State × Result (Unit {0})
  unfolding store
  update_schema_id s id schema_id opts =
      let o = new_manager_options opts in
      elim (P.get_identity_confidential s id) [
        | err e ↦ (s, err e)
        | ok original ↦
            if not o.allow_write_protected_traits && not (original.schema_id == schema_id)
            then (s, err protected_field_modified)
            else let (i, checked) = validate o (record original { schema_id = schema_id }) in
              elim checked [
                | err e ↦ (s, err e)
                | ok _ ↦ let r = store s i (P.update_identity s i) in (r.pool, r.result)
              ]
      ]

  unfoldable pub set_traits : P.State → ℕ → String → List ManagerOption → Result Identity
  set_traits s id traits opts =
      let o = new_manager_options opts in
      elim (P.get_identity_confidential s id) [
        | err e ↦ err e
        | ok original ↦
            let (updated, checked) = validate o (record original { traits = traits }) in
            elim checked [
              | err e ↦ err e
              | ok _ ↦ elim (requires_privileged_access original updated o).0 [
                | err e ↦ err e
                | ok _ ↦ ok updated
              ]
            ]
      ]

  unfoldable pub update_traits :
      P.State → ℕ → String → List ManagerOption → P.State × Result (Unit {0})
  unfolding set_traits store
  update_traits s id traits opts = elim (set_traits s id traits opts) [
    | err e ↦ (s, err e)
    | ok updated ↦ let r = store s updated (P.update_identity s updated) in (r.pool, r.result)
  ]
