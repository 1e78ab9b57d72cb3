-- ===== src/Redirect.antt =====
-- x/http_secure_redirect.go: where a `return_to` parameter may lead.
pub mod Allowed
mod Tests
use kratos.Base.{ℕ, ◌≡◌, String, Bool, true, false, not, ◌&&◌, Option, none, some, any}
use kratos.Base.{List, [], ◌∷◌, ◌++◌, if◌then◌else◌, ◌==◌, string_eq, nat_eq}
use kratos.Base.{Result, ok, err, Err, ◌>>=◌, internal, redirect_url_not_allowed}
use kratos.Base.{◌||◌, ℕ}
use kratos.Http.{codes, same_codes}

pub record Url : Type 0 where
  pub scheme : String
  pub host : String
  pub path : String
  pub raw_query : String

-- What the package takes from net/url, strings and ory/x.
pub record Env : Type 0 where
  -- url.ParseRequestURI, and Query().Get("return_to") on a query
  pub parse_request_uri : String → Option Url
  pub return_to : String → String
  -- strings.ToLower and strings.EqualFold
  pub to_lower : String → String
  pub equal_fold : String → String → Bool
  -- urlx.AppendPaths
  pub append_path : Url → String → Url
  -- x.RequestURL(r)
  pub request_url : Url

pub record Options : Type 0 where
  pub whitelist : List Url
  pub default_return_to : Url
  pub source_url : String

-- The functional options.
pub data RedirectOption : Type 0 where
  allow_urls : List Url → RedirectOption
  use_source_url : String → RedirectOption
  allow_self_service_urls : Url → RedirectOption
  override_default_return_to : Url → RedirectOption

abbrev pub coalesce : String → String → String
coalesce a b = if a == "" then b else a

-- strings.HasPrefix and strings.HasSuffix, on the characters.
abbrev pub is_prefix : List ℕ → List ℕ → Bool
is_prefix [] s = true
is_prefix (p ∷ ps) [] = false
is_prefix (p ∷ ps) (c ∷ cs) = p == c && is_prefix ps cs

abbrev pub is_suffix : List ℕ → List ℕ → Bool
is_suffix p [] = same_codes p []
is_suffix p (c ∷ cs) = same_codes p (c ∷ cs) || is_suffix p cs

unfoldable pub has_prefix : String → String → Bool
has_prefix s prefix = is_prefix (codes prefix) (codes s)

abbrev pub starts_with_star : List ℕ → Bool
starts_with_star [] = false
starts_with_star (c ∷ cs) = c == b'*'

abbrev pub tail : List ℕ → List ℕ
tail [] = []
tail (c ∷ cs) = cs

module _ (E : Env) where
  abbrev pub apply_option : RedirectOption → Options → Options
  apply_option (allow_urls urls) o = record o { whitelist = o.whitelist ++ urls }
  apply_option (use_source_url source) o = record o { source_url = source }
  apply_option (allow_self_service_urls public_url) o = record o {
    whitelist = o.whitelist ++ E.append_path public_url "/self-service" ∷ [];
  }
  apply_option (override_default_return_to url) o = record o { default_return_to = url }

  abbrev pub apply_options : List RedirectOption → Options → Options
  apply_options [] o = o
  apply_options (opt ∷ opts) o = apply_options opts (apply_option opt o)

  -- A host that begins with a star stands for the hosts that end in what follows it.
  unfoldable pub is_white_listed_host : Url → Url → Bool
  is_white_listed_host return_to allowed =
      if starts_with_star (codes allowed.host)
      then is_suffix (tail (codes (E.to_lower allowed.host))) (codes (E.to_lower return_to.host))
      else E.equal_fold allowed.host return_to.host

  unfoldable pub is_allowed_by : Url → Url → Bool
  is_allowed_by return_to allowed =
      E.equal_fold allowed.scheme return_to.scheme
      && is_white_listed_host return_to allowed
      && has_prefix (coalesce return_to.path "/") (coalesce allowed.path "/")

  abbrev pub or_internal : String → Option Url → Result Url
  or_internal why none = err (internal why)
  or_internal why (some url) = ok url

  abbrev pub source_of : Options → Result Url
  source_of o =
      if o.source_url == ""
      then ok E.request_url
      else or_internal "Unable to parse the original request URL" (E.parse_request_uri o.source_url)

  abbrev pub completed : Options → Url → Url
  completed o url = record url {
    host = coalesce url.host o.default_return_to.host;
    scheme = coalesce url.scheme o.default_return_to.scheme;
  }

  abbrev pub if_allowed : List Url → Url → Result Url
  if_allowed whitelist url =
      if any (λ allowed. is_allowed_by url allowed) whitelist
      then ok url
      else err redirect_url_not_allowed

  unfoldable pub redirect_within : Options → Url → Result Url
  redirect_within o source =
      if E.return_to source.raw_query == "" then ok o.default_return_to else (do
        url ←
            or_internal "Unable to parse the return_to query parameter as an URL"
              (E.parse_request_uri (E.return_to source.raw_query))
        if_allowed o.whitelist (completed o url))

  abbrev pub is_empty : List Url → Bool
  is_empty [] = true
  is_empty (_ ∷ _) = false

  unfoldable pub redirect_with : Options → Result Url
  redirect_with o =
      if is_empty o.whitelist
      then ok o.default_return_to
      else (do source ← source_of o; redirect_within o source)

  unfoldable pub secure_redirect_to : Url → List RedirectOption → Result Url
  secure_redirect_to default_return_to opts = redirect_with (
      apply_options opts
        (record { whitelist = []; default_return_to = default_return_to; source_url = "" }))
