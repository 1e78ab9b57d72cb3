-- ===== src/Http.antt =====
-- The parts of an HTTP request that the components read, and the bearer token of session/helper.go.
use Prim.Native.Char.{Char, code}
use Prim.Native.String
use kratos.Base.{ℕ, ◌+◌, ◌≡◌, refl, String, Bool, true, false, ◌&&◌, Option, none, some}
use kratos.Base.{List, [], ◌∷◌, map, if◌then◌else◌, ◌==◌, nat_eq, string_eq, leb}

-- A header that is missing is "", as http.Header.Get has it.
pub record Request : Type 0 where
  pub x_session_token : String
  pub x_session_cookie : String
  pub authorization : String
  pub cookie : String
  pub origin : String
  -- x.IsJSONRequest(r)
  pub is_json : Bool
  -- r.URL.Query().Get("refresh") and Get("aal")
  pub refresh : String
  pub aal : String

abbrev pub is_space : Char → Bool
is_space c = code c == b' '

push : String → Char → String
push s c = String.◌++◌ s (String.◌∷◌ c String.[])

-- strings.Split(s, " ")
split_from : String → String → List String
split_from cur String.[] = cur ∷ []
split_from cur (String.◌∷◌ c s) =
    let closed = cur ∷ split_from "" s in
    let longer = split_from (push cur c) s in if is_space c then closed else longer

unfoldable pub split_space : String → List String
unfolding split_from push
split_space s = split_from "" s

abbrev pub codes : String → List ℕ
codes String.[] = []
codes (String.◌∷◌ c s) = code c ∷ codes s

-- strings.ToLower, where the result is compared with an ASCII text: only the letters of ASCII have
-- a lower case among them.
abbrev pub to_lower : ℕ → ℕ
to_lower c = if leb b'A' c && leb c b'Z' then c + 32 else c

abbrev pub same_codes : List ℕ → List ℕ → Bool
same_codes [] [] = true
same_codes [] (_ ∷ _) = false
same_codes (_ ∷ _) [] = false
same_codes (a ∷ as') (b ∷ bs) = a == b && same_codes as' bs

unfoldable pub lower_is : String → String → Bool
lower_is s t = same_codes (map to_lower (codes s)) (codes t)

bearer_of : List String → Option String
bearer_of (scheme ∷ token ∷ []) = if lower_is scheme "bearer" then some token else none
bearer_of _ = none

unfoldable pub bearer_token_from_request : Request → Option String
unfolding bearer_of lower_is split_space
bearer_token_from_request r = bearer_of (split_space r.authorization)

abbrev no_headers : Request
no_headers = record {
  x_session_token = "";
  x_session_cookie = "";
  authorization = "";
  cookie = "";
  origin = "";
  is_json = false;
  refresh = "";
  aal = "";
}

bearer_tests :
    (bearer_token_from_request (record no_headers { authorization = "BEARER t0" }) ≡ some "t0")
    × (bearer_token_from_request (record no_headers { authorization = "bearer  t0" }) ≡ none)
    × (bearer_token_from_request no_headers ≡ none)
unfolding bearer_token_from_request
bearer_tests = (refl, refl, refl)
