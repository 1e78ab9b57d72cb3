-- ===== src/Identity/Persister/Owner.antt =====
-- Whose credentials an identifier finds.
use kratos.Base.{
  ◌==◌, nat_eq, string_eq, Option-cases, Bool-cases, err-ne-ok, >>=-eq-ok, check, All, arith, none,
  Option, true, Bool, inr, inl, String, ℕ, ◌≡◌, ok, ◌∷◌, [], List, some, ok-injective, ap, sym, ◌∙◌,
  refl, any, ◌&&◌, &&-parts,
}
use mathlib.Core.Option.{some-injective, some-ne-none}
use mathlib.Core.Path.{subst}
use kratos.Base.Dict.{lookup, insert, lookup-insert, HasUniqueKeys, insert-HasUniqueKeys}
use kratos.Base.Find.{find, filter, find_fits}
use kratos.Identity.{Identity, Credentials, get_credentials, copy_without_credentials}
use kratos.Identity.Persister.{Tables, Env}
use kratos.Identity.Persister.Read.{load_credentials, get_identity_confidential, is_owned}
use kratos.Identity.Persister.{normalized, or_no_rows}
use kratos.Identity.Persister.Read.{is_match, find_by_credentials_identifier}
use kratos.Identity.Persister.{inject_traits_schema_url, is_identity}
use kratos.Identity.Persister.Read.{or_bug, identifiers_of}

found_by {ℓ} : {A : Type ℓ} (o : Option A) (a : A) → or_no_rows o ≡ ok a → o ≡ some a
found_by none a h = absurd (err-ne-ok h)
found_by (some b) a h = ap some (ok-injective h)

module _ (E : Env) where
  -- The credentials of a map are under their type, and are those of the identity in the network.
  abbrev IsOwnedBy : ℕ → List (String × Credentials) → Type 0
  IsOwnedBy id m =
      (k : String) (c : Credentials)
      → lookup k m ≡ some c
      → (c.type ≡ k) × (c.identity_id ≡ id) × (c.nid ≡ E.nid)

  is_owned_parts :
      (id : ℕ) (c : Credentials) → is_owned E id c ≡ true → (c.identity_id ≡ id) × (c.nid ≡ E.nid)
  is_owned_parts id c h =
      ground (arith, h, nat_eq.beq_iff c.identity_id id, nat_eq.beq_iff c.nid E.nid)

  insert-IsOwnedBy :
      (id : ℕ) (name : String) (c : Credentials) (m : List (String × Credentials))
      → c.type ≡ name
      → (c.identity_id ≡ id) × (c.nid ≡ E.nid)
      → IsOwnedBy id m
      → IsOwnedBy id (insert name c m)
  insert-IsOwnedBy id name c m named owned h k d found = elim (Bool-cases (k == name)) [
    | inl same ↦
        let is_c : c ≡ d =
          some-injective _ _ (sym (lookup-insert k name c m ∙ rw same refl) ∙ found) in
        rw (← is_c) (named ∙ sym ((string_eq.beq_iff k name).0 same), owned.0, owned.1)
    | inr differs ↦ h k d (sym (lookup-insert k name c m ∙ rw differs refl) ∙ found)
  ]

  loaded :
      (T : Tables) (id : ℕ) (rows : List Credentials) (m m' : List (String × Credentials))
      → All (λ c. is_owned E id c ≡ true) rows
      → IsOwnedBy id m × HasUniqueKeys m
      → load_credentials E T rows m ≡ ok m'
      → IsOwnedBy id m' × HasUniqueKeys m'
  unfolding load_credentials
  loaded T id [] m m' owned (h, u) k =
      subst (λ x. IsOwnedBy id x × HasUniqueKeys x) (ok-injective k) (h, u)
  loaded T id (c ∷ rest) m m' (mine, owned) (h, u) k =
      let (_, _, k1) = >>=-eq-ok (check (E.fault "identity_credential_types")) _ k in
      let (ct, _, k2) =
        >>=-eq-ok (or_no_rows (find (λ t. t.id == c.credential_type_id) T.types)) _ k1 in
      let (_, _, k3) = >>=-eq-ok (check (E.fault "identity_credential_identifiers")) _ k2 in
      let d = record c { type = ct.name; identifiers = identifiers_of E T c } in
      loaded T id rest (insert ct.name d m) m' owned
        (
          insert-IsOwnedBy id ct.name d m refl (is_owned_parts id c mine) h,
          insert-HasUniqueKeys ct.name d m u,
        )
        k3

  is_identity_parts :
      (id : ℕ) (i : Identity) → is_identity E id i ≡ true → (i.id ≡ id) × (i.nid ≡ E.nid)
  is_identity_parts id i h = ground (arith, h, nat_eq.beq_iff i.id id, nat_eq.beq_iff i.nid E.nid)

  filter_fits :
      (p : Credentials → Bool) (rows : List Credentials) → All (λ c. p c ≡ true) (filter p rows)
  filter_fits p [] = tt
  filter_fits p (c ∷ rows) = elim (Bool-cases (p c)) [
    | inl fits ↦ rw fits (fits, filter_fits p rows)
    | inr skips ↦ rw skips (filter_fits p rows)
  ]

  injected :
      (i j : Identity)
      → inject_traits_schema_url E i ≡ ok j
      → (j.id ≡ i.id) × (j.nid ≡ i.nid) × (j.credentials ≡ i.credentials)
  unfolding inject_traits_schema_url
  injected i j h = elim (Option-cases (E.schema_url i.schema_id)) [
    | inl missing ↦ absurd (err-ne-ok (rw (missing, inject_traits_schema_url) at h))
    | inr (url, known) ↦
        let same = ok-injective (rw (known, inject_traits_schema_url) at h) in
        (ap (λ x. x.id) (sym same), ap (λ x. x.nid) (sym same), ap (λ x. x.credentials) (sym same))
  ]

  -- An identity that is read with its credentials is the one that is asked for, in the network, each
  -- type of its credentials occurs once, and the credentials are its own.
  get_identity_confidential-IsOwnedBy :
      (id : ℕ) (T : Tables) (i : Identity)
      → get_identity_confidential E id T ≡ ok i
      → (i.id ≡ id) × (i.nid ≡ E.nid) × IsOwnedBy id i.credentials × HasUniqueKeys i.credentials
  unfolding get_identity_confidential
  get_identity_confidential-IsOwnedBy id T i h =
      let (_, _, h1) = >>=-eq-ok (check (E.fault "identities")) _ h in
      let (row, sought, h2) = >>=-eq-ok (or_no_rows (find (is_identity E id) T.identities)) _ h1 in
      let (_, _, h3) = >>=-eq-ok (check (E.fault "identity_credentials")) _ h2 in
      let (m, filled, h4) =
        >>=-eq-ok (load_credentials E T (filter (is_owned E id) T.credentials) []) _ h3 in
      let (_, _, h5) = >>=-eq-ok (check (E.fault "identity_recovery_addresses")) _ h4 in
      let (_, _, h6) = >>=-eq-ok (check (E.fault "identity_verifiable_addresses")) _ h5 in
      let (same_id, same_nid, same) = injected _ i h6 in
      let fits = find_fits (is_identity E id) T.identities (found_by _ row sought) in
      let (owned, unique) =
        loaded T id (filter (is_owned E id) T.credentials) [] m
          (filter_fits (is_owned E id) T.credentials)
          ((λ k c f. absurd (some-ne-none c (sym f))), tt) filled in
      let (row_id, row_nid) = is_identity_parts id row fits in
      let (owned', unique') =
        subst (λ x. IsOwnedBy id x × HasUniqueKeys x) (sym same) (owned, unique) in
      (same_id ∙ row_id, same_nid ∙ row_nid, owned', unique')

  or_bug_found :
      (ct : String) (i : Identity) (c : Credentials)
      → or_bug E (get_credentials ct i) ≡ ok c
      → lookup ct i.credentials ≡ some c
  unfolding get_credentials
  or_bug_found ct i c h = elim (Option-cases (lookup ct i.credentials)) [
    | inl missing ↦ absurd (err-ne-ok (rw missing at h))
    | inr (d, found) ↦ found ∙ ap some (ok-injective (rw found at h))
  ]

  is_match_parts :
      (T : Tables) (ct identifier : String) (row : Credentials)
      → is_match E T ct identifier row ≡ true
      → (row.nid ≡ E.nid)
        × (any (λ t. t.id == row.credential_type_id && t.name == ct) T.types ≡ true)
        × (any
              (λ s.
                s.identity_credentials_id == row.id && s.nid == E.nid && s.identifier == identifier)
              T.identifiers
            ≡ true)
  is_match_parts T ct identifier row h =
      let outer = &&-parts _ _ h in
      let inner = &&-parts _ _ outer.0 in
      ((nat_eq.beq_iff row.nid E.nid).0 inner.0, inner.1, outer.1)

  -- A login by an identifier gets the identity that owns the first row of the table of credentials
  -- which is of this network and type and has this identifier, which for passwords is compared in
  -- its normal form. The identity is of the network and comes without its credentials, next to
  -- those of the type, which belong to the same identity and network.
  pub find_by_credentials_identifier-IsMatch :
      (ct match_ : String) (T : Tables) (i : Identity) (c : Credentials)
      → find_by_credentials_identifier E ct match_ T ≡ ok (i, c)
      → (row : Credentials) × (find (is_match E T ct (normalized E ct match_)) T.credentials
          ≡ some row)
        × (row.nid ≡ E.nid)
        × (any (λ t. t.id == row.credential_type_id && t.name == ct) T.types ≡ true)
        × (any
              (λ s.
                s.identity_credentials_id == row.id
                && s.nid == E.nid
                && s.identifier == normalized E ct match_)
              T.identifiers
            ≡ true)
        × (i.id ≡ row.identity_id)
        × (i.nid ≡ E.nid)
        × (i.credentials ≡ [])
        × (c.type ≡ ct)
        × (c.identity_id ≡ i.id)
        × (c.nid ≡ E.nid)
  unfolding find_by_credentials_identifier copy_without_credentials
  find_by_credentials_identifier-IsMatch ct match_ T i c h =
      let (_, _, h1) = >>=-eq-ok (check (E.fault "identity_credential_types")) _ h in
      let (_, _, h2) = >>=-eq-ok (check (E.fault "identity_credentials")) _ h1 in
      let p = is_match E T ct (normalized E ct match_) in
      let (row, sought, h3) = >>=-eq-ok (or_no_rows (find p T.credentials)) _ h2 in
      let (j, known, h4) = >>=-eq-ok (get_identity_confidential E row.identity_id T) _ h3 in
      let (d, has, h5) = >>=-eq-ok (or_bug E (get_credentials ct j)) _ h4 in
      let same = ok-injective h5 in
      let (j_id, j_nid, owned, _) = get_identity_confidential-IsOwnedBy row.identity_id T j known in
      let (named, owner, network) = owned ct d (or_bug_found ct j d has) in
      let fits =
        is_match_parts T ct (normalized E ct match_) row
          (find_fits p T.credentials (found_by _ row sought)) in
      let is_d : d ≡ c = ap (λ x. x.1) same in
      let i_id : j.id ≡ i.id = ap (λ x. x.0.id) same in
      (
        row,
        found_by _ row sought,
        fits.0,
        fits.1,
        fits.2,
        sym i_id ∙ j_id,
        sym (ap (λ x. x.0.nid) same) ∙ j_nid,
        sym (ap (λ x. x.0.credentials) same),
        rw (← is_d) named,
        rw (← is_d) (owner ∙ sym j_id ∙ i_id),
        rw (← is_d) network,
      )
