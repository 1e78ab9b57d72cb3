-- ===== src/Redirect/Tests.antt =====
-- Redirects at concrete URLs.
use kratos.Base.{◌==◌, string_eq}
use kratos.Base.{string_eq, ◌≡◌, refl, some, [], ◌∷◌, ok}
use kratos.Redirect.{
  Url, Env, allow_urls, is_white_listed_host, is_allowed_by, has_prefix, redirect_within,
  redirect_with, secure_redirect_to,
}
use kratos.Redirect.Allowed.{IsAllowed, options_of, secure_redirect_to_stays}

abbrev home : Url
home = record { scheme = "https"; host = "www.ory.sh"; path = "/"; raw_query = "" }

abbrev wildcard : Url
wildcard = record { scheme = "https"; host = "*.ory.sh"; path = "/app"; raw_query = "" }

abbrev wanted : Url
wanted = record { scheme = "https"; host = "eu.ory.sh"; path = "/app/x"; raw_query = "" }

abbrev network : Env
network = record {
  parse_request_uri = λ s. some wanted;
  return_to = λ q. q;
  to_lower = λ s. s;
  equal_fold = λ a b. a == b;
  append_path = λ url p. record url { path = p };
  request_url = record home { raw_query = "https://eu.ory.sh/app/x" };
}

bundle : Unit {0}
unfolding secure_redirect_to redirect_with redirect_within is_allowed_by is_white_listed_host
    has_prefix
bundle = tt

redirect_tests : secure_redirect_to network home (allow_urls (wildcard ∷ []) ∷ []) ≡ ok wanted
unfolding bundle
redirect_tests = refl

secure_redirect_to_stays_example :
    IsAllowed network (options_of network home (allow_urls (wildcard ∷ []) ∷ [])) wanted
unfolding bundle
secure_redirect_to_stays_example =
    secure_redirect_to_stays network home (allow_urls (wildcard ∷ []) ∷ []) refl
