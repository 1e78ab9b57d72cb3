-- ===== src/Identity/Aal.antt =====
-- identity/aal.go: the authenticator assurance level that a set of credentials amounts to.
use kratos.Base.{ℕ, ◌≤◌, ◌≡◌, refl, String, Bool, true, false, ◌&&◌, ◌||◌}
use kratos.Base.{List, [], ◌∷◌, ◌++◌, arith, any, any-append, if◌then◌else◌, ◌==◌, string_eq}
use kratos.Identity.{
  credentials_type_password, credentials_type_oidc, credentials_type_totp, credentials_type_lookup,
  credentials_type_web_authn, credentials_type_recovery_link,
}

-- AuthenticatorAssuranceLevel is a string, compared in the order of its bytes.
abbrev pub no_aal : String
no_aal = "aal0"

abbrev pub aal1 : String
aal1 = "aal1"

abbrev pub aal2 : String
aal2 = "aal2"

-- The two flags that the loop of DetermineAAL sets.
pub record Factors : Type 0 where
  pub first : Bool
  pub second : Bool

-- One round of the loop: the switch on the credentials type.
see : String → Factors → Factors
see a f =
    if a == credentials_type_recovery_link
    then record f { first = true }
    else if a == credentials_type_oidc
    then record f { first = true }
    else if a == "v0.6_legacy_session"
    then record f { first = true }
    else if a == credentials_type_password
    then record f { first = true }
    else if a == credentials_type_totp
    then record f { second = true }
    else if a == credentials_type_lookup
    then record f { second = true }
    else if a == credentials_type_web_authn
    then record f { second = true }
    else f

see_all : Factors → List String → Factors
see_all f [] = f
see_all f (a ∷ cts) = see_all (see a f) cts

level : Factors → String
level f = if f.first && f.second then aal2 else if f.first then aal1 else no_aal

unfoldable pub determine_aal : List String → String
unfolding see_all see level
determine_aal cts = level (see_all (record { first = false; second = false }) cts)

-- The factors, described one credentials type at a time.
abbrev pub is_first_factor : String → Bool
is_first_factor a =
    a == credentials_type_password
    || a == credentials_type_oidc
    || a == credentials_type_recovery_link
    || a == "v0.6_legacy_session"

abbrev pub is_second_factor : String → Bool
is_second_factor a =
    a == credentials_type_totp || a == credentials_type_lookup || a == credentials_type_web_authn

-- A text that is one of the types is no other.
same_text : (a s t : String) → a == s ≡ true → (a == t) ≡ (s == t)
same_text a s t h = rw ((string_eq.beq_iff a s).0 h)

see_first : (a : String) (f : Factors) → (see a f).first ≡ (f.first || is_first_factor a)
unfolding see
see_first a f = ground arith

-- No type is a first and a second factor.
one_factor : (a : String) → is_first_factor a ≡ true → is_second_factor a ≡ false
one_factor a h = ground (
  arith,
  same_text a credentials_type_password credentials_type_totp,
  same_text a credentials_type_password credentials_type_lookup,
  same_text a credentials_type_password credentials_type_web_authn,
  same_text a credentials_type_oidc credentials_type_totp,
  same_text a credentials_type_oidc credentials_type_lookup,
  same_text a credentials_type_oidc credentials_type_web_authn,
  same_text a credentials_type_recovery_link credentials_type_totp,
  same_text a credentials_type_recovery_link credentials_type_lookup,
  same_text a credentials_type_recovery_link credentials_type_web_authn,
  same_text a "v0.6_legacy_session" credentials_type_totp,
  same_text a "v0.6_legacy_session" credentials_type_lookup,
  same_text a "v0.6_legacy_session" credentials_type_web_authn,
)

see_second : (a : String) (f : Factors) → (see a f).second ≡ (f.second || is_second_factor a)
unfolding see
see_second a f = ground (arith, one_factor a)

see_all_first :
    (f : Factors) (cts : List String) → (see_all f cts).first ≡ (f.first || any is_first_factor cts)
unfolding see_all
see_all_first f [] = ground arith
see_all_first f (a ∷ cts) = ground (arith, see_all_first (see a f) cts, see_first a f)

see_all_second :
    (f : Factors) (cts : List String)
    → (see_all f cts).second ≡ (f.second || any is_second_factor cts)
unfolding see_all
see_all_second f [] = ground arith
see_all_second f (a ∷ cts) = ground (arith, see_all_second (see a f) cts, see_second a f)

-- The level is a function of two facts about the list alone: whether it holds a first factor
-- (password, social sign in, recovery link, a session from before v0.7), and whether it holds a
-- second factor (TOTP, lookup secret, WebAuthn). Both give "aal2", a first factor alone gives
-- "aal1", and a list without a first factor gives "aal0" whatever second factors it holds.
pub determine_aal_lem :
    (cts : List String)
    → determine_aal cts ≡ (
        if any is_first_factor cts
        then (if any is_second_factor cts then aal2 else aal1)
        else no_aal)
unfolding determine_aal
determine_aal_lem cts = ground (
  arith,
  see_all_first (record { first = false; second = false }) cts,
  see_all_second (record { first = false; second = false }) cts,
)

-- A number for each level, in the order of the strings.
abbrev pub rank : String → ℕ
rank aal = if aal == aal2 then 2 else if aal == aal1 then 1 else 0

rank_level :
    (p q : Bool)
    → rank (if p then (if q then aal2 else aal1) else no_aal)
      ≡ (if p then (if q then 2 else 1) else 0)
rank_level true true = refl
rank_level true false = refl
rank_level false q = refl

rank-determine_aal :
    (cts : List String)
    → rank (determine_aal cts)
      ≡ (if any is_first_factor cts then (if any is_second_factor cts then 2 else 1) else 0)
rank-determine_aal cts = rw (determine_aal_lem cts) (rank_level _ _)

rank_mono :
    (p q p' q' : Bool)
    → (p ≡ true → p' ≡ true)
    → (q ≡ true → q' ≡ true)
    → (if p then (if q then 2 else 1) else 0) ≤ (if p' then (if q' then 2 else 1) else 0)
rank_mono p q p' q' h k = ground (arith)

any_mono :
    (p : String → Bool) (before extra after : List String)
    → any p (before ++ after) ≡ true
    → any p (before ++ (extra ++ after)) ≡ true
any_mono p before extra after h = ground (
  arith,
  any-append p before after,
  any-append p before (extra ++ after),
  any-append p extra after,
)

-- More credentials never lower the level, wherever in the list they stand.
determine_aal_mono :
    (before extra after : List String)
    → rank (determine_aal (before ++ after)) ≤ rank (determine_aal (before ++ (extra ++ after)))
determine_aal_mono before extra after = rw (rank-determine_aal (before ++ after)) (
    rw (rank-determine_aal (before ++ (extra ++ after))) (
      rank_mono _ _ _ _ (any_mono is_first_factor before extra after)
        (any_mono is_second_factor before extra after)))

-- The order of the credentials does not matter.
pub determine_aal_comm : (xs ys : List String) → determine_aal (xs ++ ys) ≡ determine_aal (ys ++ xs)
determine_aal_comm xs ys = rw (determine_aal_lem (xs ++ ys)) (
    rw (determine_aal_lem (ys ++ xs)) (
      ground (
        arith,
        any-append is_first_factor xs ys,
        any-append is_first_factor ys xs,
        any-append is_second_factor xs ys,
        any-append is_second_factor ys xs,
      )))
