-- ===== src/Identity/Equality.antt =====
-- CredentialsEqual of identity/credentials.go.
use kratos.Base.{◌≡◌, ◌≢◌, refl, String, Bool, true, false, ◌&&◌, Option, none, some}
use kratos.Base.{
  inl, inr, List, [], ◌∷◌, arith, length, if◌then◌else◌, ◌==◌, string_eq, nat_eq, Bool-cases,
  Option-cases,
}
use mathlib.Core.Bool.{and-eq-true_iff}
use mathlib.Core.Option.{some-injective, none-ne-some}
use kratos.Base.Dict.{lookup, HasUniqueKeys, same_keys}
use kratos.Identity.{Credentials}

-- reflect.DeepEqual on the identifiers. A nil slice and an empty one, which it tells apart, are
-- one list here; the persister never hands out a nil slice.
abbrev pub same_identifiers : List String → List String → Bool
same_identifiers [] [] = true
same_identifiers [] (_ ∷ _) = false
same_identifiers (_ ∷ _) [] = false
same_identifiers (s ∷ ss) (t ∷ ts) = s == t && same_identifiers ss ts

-- The body of the loop, on what `actual, found := a[k]` gave.
abbrev pub agrees : Credentials → Option Credentials → Bool
agrees expect none = false
agrees expect (some actual) =
    expect.config == actual.config && same_identifiers expect.identifiers actual.identifiers

all_agree : List (String × Credentials) → List (String × Credentials) → Bool
all_agree a [] = true
all_agree a ((k, expect) ∷ b) = agrees expect (lookup k a) && all_agree a b

unfoldable pub credentials_equal : List (String × Credentials) → List (String × Credentials) → Bool
unfolding all_agree
credentials_equal a b =
    if length a == length b
    then (if length a == 0 && length b == 0 then true else all_agree a b)
    else false

-- What two maps hold under one key is the same to CredentialsEqual.
abbrev pub SameCredentials : Option Credentials → Option Credentials → Type 0
SameCredentials none none = Unit
SameCredentials none (some _) = ⊥
SameCredentials (some _) none = ⊥
SameCredentials (some c) (some d) = (c.config ≡ d.config) × (c.identifiers ≡ d.identifiers)

same_identifiers_sound : (ss ts : List String) → same_identifiers ss ts ≡ true → ss ≡ ts
same_identifiers_sound [] [] h = refl
same_identifiers_sound [] (t ∷ ts) h = cc
same_identifiers_sound (s ∷ ss) [] h = cc
same_identifiers_sound (s ∷ ss) (t ∷ ts) h =
    ground (arith, string_eq.beq_iff s t, same_identifiers_sound ss ts)

agrees_sound :
    (c : Credentials) (o : Option Credentials) → agrees c o ≡ true → SameCredentials (some c) o
agrees_sound c none h = cc
agrees_sound c (some d) h =
    ground (
      arith,
      string_eq.beq_iff c.config d.config,
      same_identifiers_sound c.identifiers d.identifiers,
    )

all_agree_sound :
    (a b : List (String × Credentials)) (k : String) (c : Credentials)
    → all_agree a b ≡ true
    → lookup k b ≡ some c
    → SameCredentials (some c) (lookup k a)
unfolding all_agree
all_agree_sound a [] k c h f = absurd (none-ne-some c f)
all_agree_sound a ((j, d) ∷ b) k c h f = elim (Bool-cases (k == j)) [
  | inl same ↦
      let here : d ≡ c = some-injective _ _ (rw same at f) in
      let key : k ≡ j = (string_eq.beq_iff k j).0 same in
      rw (key, ← here) (agrees_sound d (lookup j a) ((and-eq-true_iff _ _).0 h).0)
  | inr other ↦ all_agree_sound a b k c ((and-eq-true_iff _ _).0 h).1 (rw other at f)
]

SameCredentials-none : (o : Option Credentials) → o ≡ none → SameCredentials none o
SameCredentials-none none h = tt
SameCredentials-none (some c) h = cc

credentials_equal_parts :
    (a b : List (String × Credentials))
    → credentials_equal a b ≡ true
    → (length a ≡ length b) × (all_agree a b ≡ true)
unfolding credentials_equal
credentials_equal_parts a [] h = ground arith
credentials_equal_parts a (x ∷ b) h = ground arith

some-of-SameCredentials :
    (c : Credentials) (o : Option Credentials) → SameCredentials (some c) o → o ≢ none
some-of-SameCredentials c none s e = s
some-of-SameCredentials c (some d) s e = cc

-- Two maps that CredentialsEqual takes for equal hold the same types, each with the same config
-- and the same identifiers, although the loop only looks for the keys of the second map in the
-- first. The maps have each key once, as Go maps do.
pub credentials_equal_sound :
    (a b : List (String × Credentials))
    → HasUniqueKeys a
    → HasUniqueKeys b
    → credentials_equal a b ≡ true
    → (k : String) → SameCredentials (lookup k b) (lookup k a)
credentials_equal_sound a b ua ub h k =
    let (same_length, agree) = credentials_equal_parts a b h in
    elim (Option-cases (lookup k b)) [
      | inl missing ↦ rw missing (
          SameCredentials-none (lookup k a)
            (same_keys b a ub ua same_length (keys_of_agree a b agree) k missing))
      | inr (c, found) ↦ rw found (all_agree_sound a b k c agree found)
    ]
  where
    keys_of_agree :
        (a b : List (String × Credentials))
        → all_agree a b ≡ true
        → (j : String) → lookup j b ≢ none
        → lookup j a ≢ none
    keys_of_agree a b agree j present = elim (Option-cases (lookup j b)) [
      | inl missing ↦ absurd (present missing)
      | inr (c, found) ↦
          some-of-SameCredentials c (lookup j a) (all_agree_sound a b j c agree found)
    ]
