-- ===== src/Login.antt =====
-- selfservice/flow/login: the login flow.
--
-- Left out of the record: what the user interface shows, return_to, which is only for output, and
-- created_at and updated_at, which only the database layer writes.
pub mod Destroyed
pub mod Only
pub mod Gate
pub mod Hook
pub mod Submit
pub mod Logs
pub mod Fresh
mod Tests
use kratos.Base.{ℕ, String, Bool, not}
use kratos.Base.{if◌then◌else◌, ltb, ◌==◌, string_eq, Result, ok, err}
use kratos.Base.{strategy_not_responsible, flow_expired}

pub record Flow : Type 0 where
  pub id : ℕ
  pub nid : ℕ
  pub type : String
  pub expires_at : ℕ
  pub issued_at : ℕ
  pub internal_context : String
  pub request_url : String
  pub active : String
  pub csrf_token : String
  pub refresh : Bool
  pub requested_aal : String

unfoldable pub check_aal : Flow → String → Result (Unit {0})
check_aal f expected =
    if not (f.requested_aal == expected) then err strategy_not_responsible else ok tt

unfoldable pub valid : (now : ℕ) → Flow → Result (Unit {0})
valid now f = if ltb f.expires_at now then err (flow_expired f.expires_at) else ok tt
