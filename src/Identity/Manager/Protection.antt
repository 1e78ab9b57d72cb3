-- ===== src/Identity/Manager/Protection.antt =====
-- What the manager's guard protects: the credentials and the verifiable addresses of an identity.
use kratos.Base.{ap, sym, ◌∙◌, ℕ, ◌+◌, ◌≡◌, refl, ◌⊎◌, inl, inr, String, Option, List, [], ◌∷◌}
use kratos.Base.{Bool, true, false, arith, length, string_eq, nat_eq}
use kratos.Base.{Result, ok, err, Err, protected_field_modified, Result-cases, err-ne-ok, ok-ne-err}
use kratos.Base.Dict.{lookup, HasUniqueKeys}
use kratos.Identity.{Identity, VerifiableAddress}
use kratos.Identity.Equality.{credentials_equal, credentials_equal_sound, SameCredentials}
use kratos.Identity.Manager.{
  Pool, ManagerOptions, ManagerOption, new_manager_options, bool_eq, same_time, same_address,
  same_addresses, requires_privileged_access, validate, store, guarded_update, update,
}

bool_eq_sound : (a b : Bool) → bool_eq a b ≡ true → a ≡ b
bool_eq_sound a b h = ground arith

same_time_sound : (a b : Option ℕ) → same_time a b ≡ true → a ≡ b
same_time_sound a b h = ground arith

same_address_sound : (a b : VerifiableAddress) → same_address a b ≡ true → a ≡ b
same_address_sound a b h = ground (
  arith,
  string_eq.beq_iff a.value b.value,
  string_eq.beq_iff a.via b.via,
  string_eq.beq_iff a.status b.status,
  bool_eq_sound a.verified b.verified,
  same_time_sound a.verified_at b.verified_at,
)

same_addresses_sound : (xs ys : List VerifiableAddress) → same_addresses xs ys ≡ true → xs ≡ ys
same_addresses_sound [] [] h = refl
same_addresses_sound [] (y ∷ ys) h = cc
same_addresses_sound (x ∷ xs) [] h = cc
same_addresses_sound (x ∷ xs) (y ∷ ys) h =
    ground (arith, same_address_sound x y, same_addresses_sound xs ys)

both_empty : (xs ys : List VerifiableAddress) → length xs + length ys ≡ 0 → xs ≡ ys
both_empty [] [] h = refl
both_empty [] (y ∷ ys) h = absurd (omega arith)
both_empty (x ∷ xs) ys h = absurd (omega arith)

-- The guard without the privileged option, on each of its branches.
access_cases :
    (original updated : Identity) (o : ManagerOptions)
    → o.allow_write_protected_traits ≡ false
    → let r = requires_privileged_access original updated o in
      ((r ≡ (err protected_field_modified, original))
        ⊎ ((r ≡ (ok tt, updated))
            × (credentials_equal updated.credentials original.credentials ≡ true)
            × (original.verifiable_addresses ≡ updated.verifiable_addresses)))
unfolding requires_privileged_access
access_cases original updated o h = ground (
  arith,
  same_addresses_sound original.verifiable_addresses updated.verifiable_addresses,
  both_empty original.verifiable_addresses updated.verifiable_addresses,
)

access_keeps :
    (original updated : Identity) (o : ManagerOptions)
    → o.allow_write_protected_traits ≡ false
    → (requires_privileged_access original updated o).0 ≡ ok tt
    → (requires_privileged_access original updated o).1 ≡ updated
access_keeps original updated o h k = elim (access_cases original updated o h) [
  | inl r ↦ absurd (err-ne-ok (rw r at k))
  | inr (r, _, _) ↦ rw r
]

-- The credentials of one identity against those of another, type by type, and the addresses.
pub record IsProtected (original updated : Identity) : Type 0 where
  pub credentials :
      (t : String) → SameCredentials (lookup t original.credentials) (lookup t updated.credentials)
  pub addresses : original.verifiable_addresses ≡ updated.verifiable_addresses

-- Without the privileged option, a change that the guard lets through changed no credential and
-- no verifiable address: every type of either identity is in both, with the same config and the
-- same identifiers, and the addresses are equal. The credentials maps have unique keys.
pub access_granted :
    (original updated : Identity) (o : ManagerOptions)
    → HasUniqueKeys original.credentials
    → HasUniqueKeys updated.credentials
    → o.allow_write_protected_traits ≡ false
    → (requires_privileged_access original updated o).0 ≡ ok tt
    → IsProtected original updated
access_granted original updated o u v h k = elim (access_cases original updated o h) [
  | inl r ↦ absurd (err-ne-ok (rw r at k))
  | inr (r, same, addresses) ↦ record {
    credentials = credentials_equal_sound _ _ v u same;
    addresses = addresses;
  }
]

module _ (P : Pool) (run_validator : Identity → Identity × Result (Unit {0})) where
  update_unchecked :
      (s : P.State) (i : Identity) (opts : List ManagerOption) {e : Err}
      → (validate P run_validator (new_manager_options opts) i).1 ≡ err e
      → update P run_validator s i opts ≡ record {
        pool = s;
        identity = (validate P run_validator (new_manager_options opts) i).0;
        result = err e;
      }
  unfolding update
  update_unchecked s i opts refused = rw (refused, update)

  update_missing :
      (s : P.State) (i : Identity) (opts : List ManagerOption) {e : Err} {x : Unit {0}}
      → let (j, checked) = validate P run_validator (new_manager_options opts) i in
        checked ≡ ok x
        → P.get_identity_confidential s j.id ≡ err e
        → update P run_validator s i opts ≡ record { pool = s; identity = j; result = err e }
  unfolding update
  update_missing s i opts checked missing = rw (checked, update) (rw (missing, update))

  update_found :
      (s : P.State) (i original : Identity) (opts : List ManagerOption) {x : Unit {0}}
      → let (j, checked) = validate P run_validator (new_manager_options opts) i in
        checked ≡ ok x
        → P.get_identity_confidential s j.id ≡ ok original
        → update P run_validator s i opts
          ≡ guarded_update P run_validator s original j (new_manager_options opts)
  unfolding update
  update_found s i original opts checked found = rw (checked, update) (rw (found, update))

  guarded_update_cases :
      (s : P.State) (original updated : Identity) (o : ManagerOptions)
      → let r = guarded_update P run_validator s original updated o in
        let access = requires_privileged_access original updated o in
        ((e : Err) × (r.result ≡ err e) × (r.pool ≡ s))
        ⊎ ((r.result ≡ ok tt)
            × (r.identity ≡ access.1)
            × (access.0 ≡ ok tt)
            × (P.update_identity s access.1 ≡ ok r.pool))
  unfolding guarded_update store
  guarded_update_cases s original updated o =
      elim (Result-cases (requires_privileged_access original updated o).0) [
        | inr (e, r) ↦ inl (e, rw (r, guarded_update), rw (r, guarded_update))
        | inl (x, r) ↦
            elim (Result-cases
              (P.update_identity s (requires_privileged_access original updated o).1)) [
                | inr (e, w) ↦ inl (
                  e,
                  rw (r, guarded_update) (rw (w, store)),
                  rw (r, guarded_update) (rw (w, store)),
                )
                | inl (s', w) ↦ inr (
                  rw (r, guarded_update) (rw (w, store)),
                  rw (r, guarded_update) (rw (w, store)),
                  r,
                  rw (r, guarded_update) (rw (w, store)),
                )
              ]
      ]

  -- An update that fails, for whatever reason, leaves the pool as it was.
  pub update_failed :
      (s : P.State) (i : Identity) (opts : List ManagerOption) {e : Err}
      → (update P run_validator s i opts).result ≡ err e
      → (update P run_validator s i opts).pool ≡ s
  update_failed s i opts h =
      let o = new_manager_options opts in
      let j = (validate P run_validator o i).0 in
      elim (Result-cases (validate P run_validator o i).1) [
        | inr (e, refused) ↦ ap (λ r. r.pool) (update_unchecked s i opts refused)
        | inl (x, checked) ↦ elim (Result-cases (P.get_identity_confidential s j.id)) [
          | inr (e, missing) ↦ ap (λ r. r.pool) (update_missing s i opts checked missing)
          | inl (original, found) ↦
              let same = update_found s i original opts checked found in
              elim (guarded_update_cases s original j o) [
                | inl (e, _, unchanged) ↦ rw same unchanged
                | inr (fine, _, _, _) ↦ absurd (ok-ne-err (sym fine ∙ rw same at h))
              ]
        ]
      ]

  guarded_update-IsProtected :
      (s : P.State) (original updated : Identity) (o : ManagerOptions)
      → HasUniqueKeys original.credentials
      → HasUniqueKeys updated.credentials
      → o.allow_write_protected_traits ≡ false
      → let r = guarded_update P run_validator s original updated o in
        r.result ≡ ok tt
        → (r.identity ≡ updated)
          × (P.update_identity s updated ≡ ok r.pool)
          × IsProtected original updated
  guarded_update-IsProtected s original updated o u v h k =
      elim (guarded_update_cases s original updated o) [
        | inl (e, failed, _) ↦ absurd (err-ne-ok (sym failed ∙ k))
        | inr (_, same, access, written) ↦
            let kept = access_keeps original updated o h access in
            (same ∙ kept, rw kept at written, access_granted original updated o u v h access)
      ]

  -- An accepted unprivileged update: the identity that the validator made of the input is written
  -- to the pool, and against the stored identity of the same id it is protected: no credential and
  -- no verifiable address differs. Both identities have each credentials type once.
  pub update-IsProtected :
      (s : P.State) (i : Identity) (opts : List ManagerOption)
      → HasUniqueKeys (run_validator i).0.credentials
      → ((original : Identity)
          → P.get_identity_confidential s (run_validator i).0.id ≡ ok original
          → HasUniqueKeys original.credentials)
      → (new_manager_options opts).allow_write_protected_traits ≡ false
      → (update P run_validator s i opts).result ≡ ok tt
      → let stored = (run_validator i).0 in
        (original : Identity) × (P.get_identity_confidential s stored.id ≡ ok original)
        × (P.update_identity s stored ≡ ok (update P run_validator s i opts).pool)
        × IsProtected original stored
  unfolding validate
  update-IsProtected s i opts uv up h k =
      let o = new_manager_options opts in
      let j = (run_validator i).0 in
      elim (Result-cases (validate P run_validator o i).1) [
        | inr (e, refused) ↦
            absurd (err-ne-ok (sym (ap (λ r. r.result) (update_unchecked s i opts refused)) ∙ k))
        | inl (x, checked) ↦ elim (Result-cases (P.get_identity_confidential s j.id)) [
          | inr (e, missing) ↦
              absurd
                (err-ne-ok (sym (ap (λ r. r.result) (update_missing s i opts checked missing)) ∙ k))
          | inl (original, found) ↦
              let same = update_found s i original opts checked found in
              let (_, written, safe) =
                guarded_update-IsProtected s original j o (up original found) uv h (rw same at k) in
              (original, found, rw same written, safe)
        ]
      ]
