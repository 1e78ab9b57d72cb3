-- ===== src/Base/Find.antt =====
-- Rows of a table: the first that fits, and an update of all that fit.
use Prim.Native.Nat.{ℕ, suc}
use mathlib.Core.Path.{◌≡◌, refl}
use mathlib.Core.Bool.{Bool, true}
use mathlib.Core.Option.{Option, none, some}
use mathlib.Core.List.{List, [], ◌∷◌, ◌++◌}
use native.Mathlib.Omega.{arith}
use kratos.Base.Tests.{if◌then◌else◌}

module _ {ℓ} {A : Type ℓ} where
  -- SELECT … WHERE p LIMIT 1
  abbrev pub find : (A → Bool) → List A → Option A
  find p [] = none
  find p (x ∷ xs) = if p x then some x else find p xs

  -- SELECT … WHERE p
  abbrev pub filter : (A → Bool) → List A → List A
  filter p [] = []
  filter p (x ∷ xs) = let rest = filter p xs in if p x then x ∷ rest else rest

  -- UPDATE … SET f WHERE p
  abbrev pub update_where : (A → Bool) → (A → A) → List A → List A
  update_where p f [] = []
  update_where p f (x ∷ xs) = (if p x then f x else x) ∷ update_where p f xs

  -- The affected rows of an UPDATE or a DELETE.
  abbrev pub count : (A → Bool) → List A → ℕ
  count p [] = 0
  count p (x ∷ xs) = let rest = count p xs in if p x then suc rest else rest

  pub find_fits : (p : A → Bool) (xs : List A) {a : A} → find p xs ≡ some a → p a ≡ true
  find_fits p [] h = cc
  find_fits p (x ∷ xs) {a} h = ground (arith, find_fits p xs {a = a})

  abbrev pub update_if : (A → Bool) → (A → A) → A → A
  update_if p f x = if p x then f x else x

  abbrev pub map_option : (A → A) → Option A → Option A
  map_option f none = none
  map_option f (some x) = some (f x)

  -- An update that keeps what a query asks for is seen by the query, on the row that it found.
  pub find-update_where :
      (q p : A → Bool) (f : A → A) (xs : List A)
      → ((x : A) → q (f x) ≡ q x)
      → find q (update_where p f xs) ≡ map_option (update_if p f) (find q xs)
  find-update_where q p f [] keep = refl
  find-update_where q p f (x ∷ xs) keep = ground (arith, keep x, find-update_where q p f xs keep)

  pub find-append :
      (q : A → Bool) (xs : List A) (x : A)
      → find q xs ≡ none
      → q x ≡ true
      → find q (xs ++ x ∷ []) ≡ some x
  find-append q [] x h k = rw k
  find-append q (y ∷ xs) x h k = ground (arith, find-append q xs x)

  pub find_mono :
      (p q : A → Bool) (xs : List A)
      → ((x : A) → q x ≡ true → p x ≡ true)
      → find p xs ≡ none
      → find q xs ≡ none
  find_mono p q [] sub h = refl
  find_mono p q (x ∷ xs) sub h = ground (arith, sub x, find_mono p q xs sub)

  pub find_replaced :
      (p q : A → Bool) (row : A) (xs : List A) {y : A}
      → find p xs ≡ some y
      → ((x : A) → q x ≡ true → p x ≡ true)
      → q row ≡ true
      → find q (update_where p (λ _. row) xs) ≡ some row
  find_replaced p q row [] h sub k = cc
  find_replaced p q row (x ∷ xs) {y} h sub k =
      ground (arith, sub x, find_replaced p q row xs {y = y})
