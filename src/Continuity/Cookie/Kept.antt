-- ===== src/Continuity/Cookie/Kept.antt =====
-- What a cookie store that keeps what it saves makes of x/cookie.go.
use kratos.Base.{nat_eq, Option, string_eq, ◌≡◌, err, ok, Err, some, none, false, true, Bool}
use kratos.Base.{refl, String}
use kratos.Base.Dict.{lookup, erase}
use kratos.Continuity.Cookie.{is_fresh, Store, Values, text, unset_key, get_string, check_value}
use kratos.Continuity.Cookie.{is_ok}

-- What is documented of the cookie store: what is saved is what is found.
pub record IsStore {B : Type 0} (S : Store B) : Type 0 where
  pub next : B → Values → B
  pub saves : (b : B) (vs : Values) → S.save b vs ≡ ok (next b vs)
  pub gets : (b : B) (vs : Values) → S.get (next b vs) ≡ vs
  pub is_old : (b : B) (vs : Values) → S.is_new (next b vs) ≡ false
  pub finds :
      (b : B) (vs : Values) (test : Values → Bool)
      → test vs ≡ true
      → S.get_exact (next b vs) test ≡ ok vs
  pub misses :
      (b : B) (vs : Values) (test : Values → Bool)
      → test vs ≡ false
      → (e : Err) × (S.get_exact (next b vs) test ≡ err e)

module _ {B : Type 0} (S : Store B) (L : IsStore S) where
  pub get_string-present :
      (b : B) (vs : Values) (key s : String)
      → lookup key vs ≡ some (text s)
      → get_string S (L.next b vs) key ≡ ok s
  unfolding get_string
  get_string-present b vs key s found =
      rw
        (
          get_string,
          L.finds b vs (λ vs. is_ok (check_value (lookup key vs))) (rw found refl),
          found,
        )
        refl

  pub get_string-absent :
      (b : B) (vs : Values) (key : String)
      → lookup key vs ≡ none
      → (e : Err) × (get_string S (L.next b vs) key ≡ err e)
  unfolding get_string
  get_string-absent b vs key gone =
      let (e, missed) = L.misses b vs (λ vs. is_ok (check_value (lookup key vs))) (rw gone refl) in
      (e, rw (get_string, missed) refl)

  old : (b : B) (e : Option Err) (new : Bool) → new ≡ false → is_fresh S b e new ≡ false
  old b none new h = h
  old b (some e) new h = refl

  pub unset_key_lem :
      (b : B) (vs : Values) (key : String)
      → unset_key S (L.next b vs) key ≡ ok (L.next (L.next b vs) (erase key vs))
  unfolding unset_key
  unset_key_lem b vs key =
      rw
        (
          unset_key,
          old (L.next b vs) (S.get_error (L.next b vs)) (S.is_new (L.next b vs)) (L.is_old b vs),
          L.gets b vs,
        )
        (L.saves (L.next b vs) (erase key vs))
