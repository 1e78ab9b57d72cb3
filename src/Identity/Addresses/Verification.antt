-- ===== src/Identity/Addresses/Verification.antt =====
-- identity/extension_verify.go. The mutex is left out: the values of one document are visited in
-- turn. The lifespan, which no code reads, is left out too.
pub mod Collected
use kratos.Base.{ℕ, ◌≡◌, String, Option, none, some, List, [], ◌∷◌, ◌++◌, Bool, true, false, ◌&&◌}
use kratos.Base.{if◌then◌else◌, ◌==◌, string_eq, Result, ok, err, Err, other}
use kratos.Base.Find.{find}
use kratos.Identity.{Identity, VerifiableAddress}
use kratos.Identity.Addresses.{Formats, address_type_email, address_type_phone}
use kratos.Identity.Addresses.{new_verifiable_email_address, new_verifiable_phone_address}

abbrev pub matches : (value via : String) → VerifiableAddress → Bool
matches value via has = has.value == value && has.via == via

abbrev pub has : List VerifiableAddress → VerifiableAddress → Option VerifiableAddress
has haystack needle = find (matches needle.value needle.via) haystack

unfoldable pub append_address :
    List VerifiableAddress → VerifiableAddress → List VerifiableAddress → List VerifiableAddress
append_address old address v = elim (has old address) [
  | some known ↦ elim (has v address) [ none ↦ v ++ known ∷ [] | some _ ↦ v ]
  | none ↦ elim (has v address) [ none ↦ v ++ address ∷ [] | some _ ↦ v ]
]

unfoldable pub run :
    Formats
    → Identity
    → (via value : String) → List VerifiableAddress
    → List VerifiableAddress × Result (Unit {0})
run formats i via value v =
    if via == address_type_email
    then (if formats.email value
        then (
          append_address i.verifiable_addresses (new_verifiable_email_address value i.id) v,
          ok tt,
        )
        else (v, err (other "format")))
    else if via == address_type_phone
    then (if formats.tel value
        then (
          append_address i.verifiable_addresses (new_verifiable_phone_address value i.id) v,
          ok tt,
        )
        else (v, err (other "format")))
    else if via == ""
    then (v, ok tt)
    else (v, err (other "verification.via has unknown value"))

unfoldable pub finish : Identity → List VerifiableAddress → Identity
finish i v = record i { verifiable_addresses = v }

-- The values of a document that carry a verification extension, visited in turn. The first
-- error ends the validation, and `finish` runs only without one.
unfoldable pub run_all :
    Formats
    → Identity
    → List (String × String)
    → List VerifiableAddress
    → Result (List VerifiableAddress)
run_all formats i [] v = ok v
run_all formats i ((via, value) ∷ rest) v =
    let (v', r) = run formats i via value v in
    let done = run_all formats i rest v' in elim r [ ok _ ↦ done | err e ↦ err e ]

unfoldable pub validate_addresses : Formats → Identity → List (String × String) → Result Identity
validate_addresses formats i values = elim (run_all formats i values []) [
  | ok v ↦ ok (finish i v)
  | err e ↦ err e
]
