-- ===== src/Flow.antt =====
-- selfservice/flow/type.go and selfservice/flow/request.go: the type of a flow, and the checks that
-- every submission makes.
pub mod State
use kratos.Base.{String, Bool, not}
use kratos.Base.{if◌then◌else◌, ◌==◌, string_eq, Result, ok, err, Err, ◌>>=◌}
use kratos.Base.{strategy_not_responsible, strategy_disabled, origin_header_needs_browser_flow}
use kratos.Base.{cookie_header_needs_browser_flow}
use kratos.Http.{Request}

abbrev pub type_api : String
type_api = "api"

abbrev pub type_browser : String
type_browser = "browser"

-- `has_cookies` is whether net/http finds a cookie in the header, `token_is_valid` what
-- nosurf.VerifyToken says of the request's token and the submitted one, and `csrf_reason` the error
-- of x.CSRFErrorReason.
unfoldable pub ensure_csrf :
    (String → Bool)
    → (Request → String → Bool)
    → (Request → Err)
    → Request
    → String
    → Bool
    → String
    → Result (Unit {0})
ensure_csrf has_cookies token_is_valid csrf_reason r flow_type disable_api_flow_enforcement actual =
    if flow_type == type_api
    then (if disable_api_flow_enforcement
        then ok tt
        else if not (r.origin == "")
        then err origin_header_needs_browser_flow
        else if has_cookies r.cookie
        then err cookie_header_needs_browser_flow
        else ok tt)
    else if not (token_is_valid r actual)
    then err (csrf_reason r)
    else ok tt

unfoldable pub method_enabled_and_allowed :
    (String → Bool) → (expected actual : String) → Result (Unit {0})
method_enabled_and_allowed enabled expected actual =
    if not (actual == expected)
    then err strategy_not_responsible
    else if not (enabled expected)
    then err strategy_disabled
    else ok tt

-- `method` is the method that the decoder reads in the request.
unfoldable pub method_enabled_and_allowed_from_request :
    (String → Bool) → Result String → String → Result (Unit {0})
method_enabled_and_allowed_from_request enabled method expected = do
  m ← method
  method_enabled_and_allowed enabled expected m
