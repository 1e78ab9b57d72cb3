-- ===== src/Identity/Addresses/Verification/Collected.antt =====
-- What the verification extension leaves on an identity: no address twice, and none that becomes
-- verified by being written down.
use kratos.Base.{
  err-ne-ok, ok-injective, Result-cases, ok, ◌≡◌, refl, ◌∙◌, ◌⊎◌, inl, inr, String, none, some,
  List, [], ◌∷◌,
}
use kratos.Base.{◌++◌, true, false, arith, All, All-append, Option-cases}
use kratos.Base.{string_eq}
use mathlib.Core.Bool.{and-eq-true_iff}
use kratos.Base.Find.{find_fits}
use kratos.Identity.{Identity, VerifiableAddress}
use kratos.Identity.Addresses.{
  Formats, status_pending, new_verifiable_email_address, new_verifiable_phone_address,
}
use kratos.Identity.Addresses.Verification.{
  finish, validate_addresses, run_all, matches, has, append_address, run,
}

abbrev pub IsDistinct : List VerifiableAddress → Type 0
IsDistinct [] = Unit
IsDistinct (a ∷ v) = (has v a ≡ none) × IsDistinct v

-- The address is a record of the identity as it was, or it is new, and then unverified.
abbrev pub IsKept : Identity → VerifiableAddress → Type 0
IsKept i a =
    (has i.verifiable_addresses a ≡ some a)
    ⊎ ((has i.verifiable_addresses a ≡ none)
        × (a.verified ≡ false)
        × (a.status ≡ status_pending)
        × (a.verified_at ≡ none)
        × (a.identity_id ≡ i.id))

pub record IsCollected (i : Identity) (v : List VerifiableAddress) : Type 0 where
  pub distinct : IsDistinct v
  pub kept : All (IsKept i) v

matches_sym :
    (a b : VerifiableAddress) → matches a.value a.via b ≡ false → matches b.value b.via a ≡ false
matches_sym a b h = ground (
  arith,
  string_eq.beq_iff a.value b.value,
  string_eq.beq_iff b.value a.value,
  string_eq.beq_iff a.via b.via,
  string_eq.beq_iff b.via a.via,
)

has-append :
    (v : List VerifiableAddress) (a b : VerifiableAddress)
    → has v a ≡ none
    → matches a.value a.via b ≡ false
    → has (v ++ b ∷ []) a ≡ none
has-append [] a b h m = rw m
has-append (x ∷ v) a b h m = ground (arith, has-append v a b)

append-IsDistinct :
    (v : List VerifiableAddress) (b : VerifiableAddress)
    → IsDistinct v
    → has v b ≡ none
    → IsDistinct (v ++ b ∷ [])
append-IsDistinct [] b d h = (refl, tt)
append-IsDistinct (a ∷ v) b (fresh, d) h =
    ground (arith, append-IsDistinct v b d, has-append v a b fresh, matches_sym b a)

has_same :
    (v : List VerifiableAddress) (a b : VerifiableAddress)
    → matches b.value b.via a ≡ true
    → has v a ≡ has v b
has_same v a b m =
    let (value, via) = (and-eq-true_iff _ _).0 m in
    rw ((string_eq.beq_iff a.value b.value).0 value, (string_eq.beq_iff a.via b.via).0 via)

append-IsCollected :
    (i : Identity) (v : List VerifiableAddress) (a : VerifiableAddress)
    → IsCollected i v
    → has v a ≡ none
    → IsKept i a
    → IsCollected i (v ++ a ∷ [])
append-IsCollected i v a c fresh k = record {
  distinct = append-IsDistinct v a c.distinct fresh;
  kept = All-append (IsKept i) v (a ∷ []) c.kept (k, tt);
}

append_address-IsCollected :
    (i : Identity) (v : List VerifiableAddress) (a : VerifiableAddress)
    → IsCollected i v
    → (has i.verifiable_addresses a ≡ none → IsKept i a)
    → IsCollected i (append_address i.verifiable_addresses a v)
unfolding append_address
append_address-IsCollected i v a c new = elim (Option-cases (has v a)) [
  | inr (b, there) ↦ elim (Option-cases (has i.verifiable_addresses a)) [
    | inr (known, old) ↦ rw (old, append_address) (rw (there, append_address) c)
    | inl unknown ↦ rw (unknown, append_address) (rw (there, append_address) c)
  ]
  | inl absent ↦ elim (Option-cases (has i.verifiable_addresses a)) [
    | inl unknown ↦
        rw (unknown, append_address)
          (rw (absent, append_address) (append-IsCollected i v a c absent (new unknown)))
    | inr (known, old) ↦
        let alike = find_fits (matches a.value a.via) i.verifiable_addresses {a = known} old in
        rw (old, append_address)
          (rw (absent, append_address)
            (append-IsCollected i v known c (has_same v known a alike ∙ absent)
              (inl (has_same i.verifiable_addresses known a alike ∙ old))))
  ]
]

run-IsCollected :
    (formats : Formats) (i : Identity) (via value : String) (v : List VerifiableAddress)
    → IsCollected i v
    → IsCollected i (run formats i via value v).0
unfolding run new_verifiable_email_address new_verifiable_phone_address
run-IsCollected formats i via value v c = ground (
  arith,
  append_address-IsCollected i v (new_verifiable_email_address value i.id) c
      (λ h. inr (h, refl, refl, refl, refl)),
  append_address-IsCollected i v (new_verifiable_phone_address value i.id) c
      (λ h. inr (h, refl, refl, refl, refl)),
)

run_all-IsCollected :
    (formats : Formats) (i : Identity) (values : List (String × String))
    (v w : List VerifiableAddress)
    → IsCollected i v
    → run_all formats i values v ≡ ok w
    → IsCollected i w
unfolding run_all
run_all-IsCollected formats i [] v w c h = rw (← ok-injective h) c
run_all-IsCollected formats i ((via, value) ∷ rest) v w c h =
    let (v', r) = run formats i via value v in
    elim (Result-cases r) [
      | inl (x, fine) ↦
          run_all-IsCollected formats i rest v' w (run-IsCollected formats i via value v c)
            (rw (fine, run_all) at h)
      | inr (e, failed) ↦ absurd (err-ne-ok (rw (failed, run_all) at h))
    ]

-- Where the extension accepts a document, the identity's verifiable addresses are distinct in
-- their value and channel, and each is either the very record that the identity already had, or
-- new, pending and unverified: writing an address into the traits never verifies it.
pub validate_addresses-IsCollected :
    (formats : Formats) (i j : Identity) (values : List (String × String))
    → validate_addresses formats i values ≡ ok j
    → IsCollected i j.verifiable_addresses
unfolding validate_addresses finish
validate_addresses-IsCollected formats i j values h =
    elim (Result-cases (run_all formats i values [])) [
      | inl (v, done) ↦
          let same : finish i v ≡ j = ok-injective (rw (done, validate_addresses) at h) in
          rw (← same)
            (run_all-IsCollected formats i values [] v (record { distinct = tt; kept = tt }) done)
      | inr (e, failed) ↦ absurd (err-ne-ok (rw (failed, validate_addresses) at h))
    ]
