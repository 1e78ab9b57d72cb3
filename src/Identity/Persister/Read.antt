-- ===== src/Identity/Persister/Read.antt =====
-- persistence/sql/persister_identity.go: identities as they are read, and as an identifier finds them.
use kratos.Base.{
  nat_eq, string_eq, ◌>>◌, ◌>>=◌, ◌>>◌, ◌==◌, ◌∷◌, ◌&&◌, check, err, ok, Result, any, map, [], List,
  some, none, Option, Bool, String, ℕ, internal,
}
use kratos.Base.Find.{find, filter}
use kratos.Base.Dict.{insert}
use kratos.Identity.{Identity, Credentials, get_credentials}
use kratos.Identity.{copy_without_credentials}
use kratos.Identity.Persister.{
  Tables, Env, or_no_rows, normalized, is_identity, inject_traits_schema_url,
}

module _ (E : Env) where
  abbrev with_addresses : Tables → Identity → Identity
  with_addresses T i = record i {
    verifiable_addresses =
        E.order_verifiable (filter (λ a. a.identity_id == i.id && a.nid == E.nid) T.verifiable);
    recovery_addresses =
        E.order_recovery (filter (λ a. a.identity_id == i.id && a.nid == E.nid) T.recovery);
  }

  unfoldable pub get_identity : ℕ → Tables → Result Identity
  get_identity id T = do
    check (E.fault "identities")
    i ← or_no_rows (find (is_identity E id) T.identities)
    check (E.fault "identity_verifiable_addresses")
    check (E.fault "identity_recovery_addresses")
    inject_traits_schema_url E (with_addresses T (record i { credentials = [] }))

  abbrev pub identifiers_of : Tables → Credentials → List String
  identifiers_of T c =
      map (λ s. s.identifier)
        (filter (λ s. s.identity_credentials_id == c.id && s.nid == E.nid) T.identifiers)

  -- The loop that fills the map of credentials.
  unfoldable pub load_credentials :
      Tables → List Credentials → List (String × Credentials) → Result (List (String × Credentials))
  load_credentials T [] m = ok m
  load_credentials T (c ∷ rest) m = do
    check (E.fault "identity_credential_types")
    ct ← or_no_rows (find (λ t. t.id == c.credential_type_id) T.types)
    check (E.fault "identity_credential_identifiers")
    load_credentials T rest
        (insert ct.name (record c { type = ct.name; identifiers = identifiers_of T c }) m)

  abbrev pub is_owned : ℕ → Credentials → Bool
  is_owned id c = c.identity_id == id && c.nid == E.nid

  unfoldable pub get_identity_confidential : ℕ → Tables → Result Identity
  get_identity_confidential id T = do
    check (E.fault "identities")
    i ← or_no_rows (find (is_identity E id) T.identities)
    check (E.fault "identity_credentials")
    m ← load_credentials T (filter (is_owned id) T.credentials) []
    check (E.fault "identity_recovery_addresses")
    check (E.fault "identity_verifiable_addresses")
    inject_traits_schema_url E (with_addresses T (record i { credentials = m }))

  -- The joined tables: credentials of the type, with an identifier that matches.
  abbrev pub is_match : Tables → (ct match_ : String) → Credentials → Bool
  is_match T ct match_ c =
      c.nid == E.nid
      && any (λ t. t.id == c.credential_type_id && t.name == ct) T.types
      && any (λ s. s.identity_credentials_id == c.id && s.nid == E.nid && s.identifier == match_)
          T.identifiers

  abbrev pub or_bug : Option Credentials → Result Credentials
  or_bug none = err (internal "The SQL adapter failed to return the appropriate credentials_type")
  or_bug (some c) = ok c

  unfoldable pub find_by_credentials_identifier :
      (ct match_ : String) → Tables → Result (Identity × Credentials)
  find_by_credentials_identifier ct match_ T = do
    check (E.fault "identity_credential_types")
    check (E.fault "identity_credentials")
    row ← or_no_rows (find (is_match T ct (normalized E ct match_)) T.credentials)
    i ← get_identity_confidential row.identity_id T
    c ← or_bug (get_credentials ct i)
    ok (copy_without_credentials i, c)
