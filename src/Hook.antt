-- ===== src/Hook.antt =====
-- selfservice/hook/address_verifier.go and session_destroyer.go: hooks that run after a login.
pub mod Destroyer
pub mod Registered
mod Tests
use kratos.Base.{
  string_eq, if◌then◌else◌, ◌==◌, ◌∷◌, internal, panic, address_not_verified, err, ok, Result, Err,
  any, [], List, some, none, Option, not, ℕ,
}
use kratos.Identity.{VerifiableAddress, credentials_type_password}
use kratos.Login.{Flow}
use kratos.Session.{Session}
use kratos.Session.Persister.{delete_sessions_by_identity}

-- A login with a password needs a verified address. A session without identity is a nil pointer.
unfoldable pub execute_address_verifier : Flow → Session → Result (Unit {0})
execute_address_verifier f s =
    if not (f.active == credentials_type_password) then ok tt else elim s.identity [
      | none ↦ err panic
      | some i ↦ elim i.verifiable_addresses [
        | [] ↦ err (internal "A misconfiguration prevents login.")
        | a ∷ addresses ↦
            if any (λ va. va.verified) (a ∷ addresses) then ok tt else err address_not_verified
      ]
    ]

-- The table that is left.
unfoldable pub execute_session_destroyer :
    Option Err → (nid : ℕ) → Session → List Session → Result (List Session)
execute_session_destroyer fault nid s table = elim s.identity [
  | none ↦ err panic
  | some i ↦ delete_sessions_by_identity fault nid i.id table
]
