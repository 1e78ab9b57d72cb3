-- ===== src/Continuity/Cookie.antt =====
-- x/cookie.go: the values that a cookie of the session store carries, for one cookie.
pub mod Kept
use kratos.Base.{string_eq, ◌>>=◌, if◌then◌else◌, internal, err, ok, Result, Err, List, some}
use kratos.Base.{none, Option, false, true, Bool, String}
use kratos.Base.Dict.{lookup, insert, erase}

-- A value is a text, or something else.
pub data Value : Type 0 where
  text : String → Value
  no_text : Value

abbrev pub Values : Type 0
Values = List (String × Value)

-- gorilla/sessions, for a cookie of fixed name: Get, with IsNew and its error, GetExact and Save.
-- Get gives a session in any case.
pub record Store (B : Type 0) : Type 0 where
  pub get : B → Values
  pub is_new : B → Bool
  pub get_error : B → Option Err
  pub get_exact : B → (Values → Bool) → Result Values
  pub save : B → Values → Result B

abbrev pub check_value : Option Value → Result String
check_value (some (text s)) = ok s
check_value (some no_text) = err (internal "value is not of type string in cookie")
check_value none = err (internal "key does not exist in cookie")

abbrev pub is_ok {ℓ} : {A : Type ℓ} → Result A → Bool
is_ok (ok a) = true
is_ok (err e) = false

module _ {B : Type 0} (S : Store B) (b : B) where
  unfoldable pub persist_values : String → String → Result B
  persist_values key value = S.save b (insert key (text value) (S.get b))

  -- GetExact gives a cookie for which the test held.
  unfoldable pub get_string : String → Result String
  get_string key = do
    values ← S.get_exact b (λ values. is_ok (check_value (lookup key values)))
    check_value (lookup key values)

  unfoldable pub get_string_or : (key fallback : String) → String
  get_string_or key fallback = elim (get_string key) [ ok v ↦ v | err e ↦ fallback ]

  abbrev pub is_fresh : Option Err → Bool → Bool
  is_fresh none new = new
  is_fresh (some e) new = false

  -- A cookie that was not sent is left alone.
  unfoldable pub unset_key : String → Result B
  unset_key key =
      if is_fresh (S.get_error b) (S.is_new b) then ok b else S.save b (erase key (S.get b))
