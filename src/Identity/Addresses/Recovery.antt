-- ===== src/Identity/Addresses/Recovery.antt =====
-- identity/extension_recovery.go. The mutex is left out: the values of one document are visited in
-- turn.
use kratos.Base.{String, Option, none, some, List, [], ◌∷◌, ◌++◌, Bool, ◌&&◌}
use kratos.Base.{if◌then◌else◌, ◌==◌, string_eq, Result, ok, err, other}
use kratos.Base.Find.{find}
use kratos.Identity.{Identity, RecoveryAddress}
use kratos.Identity.Addresses.{Formats, new_recovery_email_address}

abbrev matches : (value via : String) → RecoveryAddress → Bool
matches value via has = has.value == value && has.via == via

abbrev pub has : List RecoveryAddress → RecoveryAddress → Option RecoveryAddress
has haystack needle = find (matches needle.value needle.via) haystack

-- The addresses collected so far, from those that the identity has.
unfoldable pub collect :
    List RecoveryAddress → RecoveryAddress → List RecoveryAddress → List RecoveryAddress
collect old address v = elim (has old address) [
  | some known ↦ elim (has v address) [ none ↦ v ++ known ∷ [] | some _ ↦ v ]
  | none ↦ elim (has v address) [ none ↦ v ++ address ∷ [] | some _ ↦ v ]
]

-- `via` is s.Recovery.Via.
unfoldable pub run :
    Formats
    → Identity
    → (via value : String) → List RecoveryAddress
    → List RecoveryAddress × Result (Unit {0})
run formats i via value v =
    if via == "email"
    then (if formats.email value
        then (collect i.recovery_addresses (new_recovery_email_address value i.id) v, ok tt)
        else (v, err (other "format")))
    else if via == ""
    then (v, ok tt)
    else (v, err (other "recovery.via has unknown value"))

unfoldable pub finish : Identity → List RecoveryAddress → Identity
finish i v = record i { recovery_addresses = v }
