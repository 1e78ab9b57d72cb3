-- ===== src/Session.antt =====
-- session/session.go: a session, its activation and expiry.
--
-- A time is a number of nanoseconds and a duration too. Left out of the record: created_at and
-- updated_at, which only the database layer writes.
pub mod Persister
pub mod Manager
pub mod Api
pub mod Tests
use kratos.Base.{ℕ, ◌+◌, ◌≡◌, String, Bool, true, false, ◌&&◌, Option, none, some, not}
use kratos.Base.{List, [], ◌∷◌, ◌++◌, map, if◌then◌else◌, ltb, Result, ok, err, Err}
use kratos.Base.{identity_disabled, panic}
use kratos.Identity.{Identity, is_active as is_active_identity, copy_without_credentials}
use kratos.Identity.Aal.{determine_aal, no_aal}

pub record AuthenticationMethod : Type 0 where
  pub method : String
  pub completed_at : ℕ

pub record Session : Type 0 where
  pub id : ℕ
  pub active : Bool
  pub expires_at : ℕ
  pub authenticated_at : ℕ
  pub authenticator_assurance_level : String
  pub amr : List AuthenticationMethod
  pub issued_at : ℕ
  pub logout_token : String
  pub identity : Option Identity
  pub identity_id : ℕ
  pub token : String
  pub nid : ℕ

unfoldable pub completed_login_for : (now : ℕ) → String → Session → Session
completed_login_for now method s = record s {
  amr = s.amr ++ record { method = method; completed_at = now } ∷ [];
}

abbrev pub methods : Session → List String
methods s = map (λ m. m.method) s.amr

unfoldable pub set_authenticator_assurance_level : Session → Session
set_authenticator_assurance_level s = record s {
  authenticator_assurance_level = determine_aal (methods s);
}

-- The identifier and the two random tokens are drawn by the caller.
unfoldable pub new_inactive_session : (id : ℕ) → (token logout_token : String) → Session
new_inactive_session id token logout_token = record {
  id = id;
  active = false;
  expires_at = 0;
  authenticated_at = 0;
  authenticator_assurance_level = no_aal;
  amr = [];
  issued_at = 0;
  logout_token = logout_token;
  identity = none;
  identity_id = 0;
  token = token;
  nid = 0;
}

-- With a nil identity the guard passes, and `i.ID` is a nil pointer dereference.
unfoldable pub activate :
    Option Identity → (lifespan authenticated_at : ℕ) → Session → Result Session
activate none lifespan authenticated_at s = err panic
activate (some i) lifespan authenticated_at s =
    if not (is_active_identity i)
    then err identity_disabled
    else ok (
        set_authenticator_assurance_level (record s {
          active = true;
          expires_at = authenticated_at + lifespan;
          authenticated_at = authenticated_at;
          issued_at = authenticated_at;
          identity = some i;
          identity_id = i.id;
        }))

unfoldable pub new_active_session :
    (id : ℕ)
    → (token logout_token : String) → (now : ℕ) → Option Identity
    → (lifespan authenticated_at : ℕ) → String
    → Result Session
new_active_session id token logout_token now i lifespan authenticated_at completed =
    activate i lifespan authenticated_at
      (completed_login_for now completed (new_inactive_session id token logout_token))

abbrev pub nil_or_active : Option Identity → Bool
nil_or_active none = true
nil_or_active (some i) = is_active_identity i

unfoldable pub is_active : (now : ℕ) → Session → Bool
is_active now s = s.active && ltb now s.expires_at && nil_or_active s.identity

-- `s.Identity.CopyWithoutCredentials()` dereferences the identity.
unfoldable pub declassify : Session → Result Session
declassify s = elim s.identity [
  | none ↦ err panic
  | some i ↦ ok (record s { identity = some (copy_without_credentials i) })
]
