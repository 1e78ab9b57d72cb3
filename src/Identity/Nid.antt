-- ===== src/Identity/Nid.antt =====
-- ValidateNID of identity/identity.go: no part of an identity belongs to another network.
use kratos.Base.{◌≡◌, ◌≢◌, refl, ◌↔◌, ℕ, String, List, [], ◌∷◌, arith}
use kratos.Base.{◌>>◌, fail_if, All, ◌==◌, nat_eq, if◌then◌else◌, Result, ok, err, invalid_nid}
use kratos.Identity.{Identity, Credentials, VerifiableAddress, RecoveryAddress}

-- `for _, r := range xs { if r.NID != expected { return error } }`
unfoldable pub check_nids {ℓ} : {A : Type ℓ} → ℕ → (A → ℕ) → List A → Result (Unit {0})
check_nids expected nid [] = ok tt
check_nids expected nid (r ∷ rs) =
    let rest = check_nids expected nid rs in if nid r == expected then rest else err invalid_nid

unfoldable pub validate_nid : Identity → Result (Unit {0})
validate_nid i = do
  fail_if (i.nid == 0) invalid_nid
  check_nids i.nid (λ r. r.nid) i.recovery_addresses
  check_nids i.nid (λ r. r.nid) i.verifiable_addresses
  check_nids i.nid (λ r. (r.1).nid) i.credentials

check_nids_iff {ℓ} :
    {A : Type ℓ} (expected : ℕ) (nid : A → ℕ) (rs : List A)
    → (check_nids expected nid rs ≡ ok tt) ↔ All (λ r. nid r ≡ expected) rs
unfolding check_nids
check_nids_iff expected nid [] = (λ h. tt, λ h. refl)
check_nids_iff expected nid (r ∷ rs) = ground (arith, check_nids_iff expected nid rs)

-- An identity passes exactly when its network id is set and every recovery address, verifiable
-- address and credential carries that same id.
pub validate_nid_iff :
    (i : Identity)
    → (validate_nid i ≡ ok tt) ↔ (
        (i.nid ≢ 0)
        × All (λ r. r.nid ≡ i.nid) i.recovery_addresses
        × All (λ r. r.nid ≡ i.nid) i.verifiable_addresses
        × All (λ r. (r.1).nid ≡ i.nid) i.credentials)
unfolding validate_nid
validate_nid_iff i = ground (
  arith,
  check_nids_iff i.nid (λ (r : RecoveryAddress). r.nid) i.recovery_addresses,
  check_nids_iff i.nid (λ (r : VerifiableAddress). r.nid) i.verifiable_addresses,
  check_nids_iff i.nid (λ (r : String × Credentials). (r.1).nid) i.credentials,
)
