-- ===== src/Base/Dict.antt =====
-- Go maps as association lists. A map of the program has each key once (`HasUniqueKeys`).
use Prim.Native.Nat.{suc}
use mathlib.Core.Path.{◌≡◌, refl, sym, ◌∙◌, ap}
use mathlib.Core.Logic.{◌≢◌, inl, inr}
use mathlib.Core.Option.{Option, none, some, some-ne-none}
use mathlib.Core.List.{List, [], ◌∷◌}
use native.Mathlib.Omega.{arith}
use kratos.Base.Tests.{Eq, ◌==◌, if◌then◌else◌, Bool-cases, Option-cases}
use kratos.Base.Lists.{length}

module _ {ℓ κ} {K : Type ℓ} {V : Type κ} ⦃e : Eq K⦄ where
  -- `v, ok := m[k]`
  abbrev pub lookup : K → List (K × V) → Option V
  lookup k [] = none
  lookup k ((j, v) ∷ m) = if k == j then some v else lookup k m

  -- `m[k] = v`
  abbrev pub insert : K → V → List (K × V) → List (K × V)
  insert k v [] = (k, v) ∷ []
  insert k v ((j, w) ∷ m) = if k == j then (k, v) ∷ m else (j, w) ∷ insert k v m

  -- `delete(m, k)`
  abbrev pub erase : K → List (K × V) → List (K × V)
  erase k [] = []
  erase k ((j, w) ∷ m) = let rest = erase k m in if k == j then rest else (j, w) ∷ rest

  abbrev pub HasUniqueKeys : List (K × V) → Type κ
  HasUniqueKeys [] = Unit
  HasUniqueKeys ((k, _) ∷ m) = (lookup k m ≡ none) × HasUniqueKeys m

  pub lookup-insert :
      (j k : K) (v : V) (m : List (K × V))
      → lookup j (insert k v m) ≡ (if j == k then some v else lookup j m)
  lookup-insert j k v [] = refl
  lookup-insert j k v ((i, w) ∷ m) =
      ground (arith, e.beq_iff k i, e.beq_iff j k, e.beq_iff j i, lookup-insert j k v m)

  pub lookup-erase :
      (j k : K) (m : List (K × V)) → lookup j (erase k m) ≡ (if j == k then none else lookup j m)
  lookup-erase j k [] = ground arith
  lookup-erase j k ((i, w) ∷ m) =
      ground (arith, e.beq_iff k i, e.beq_iff j k, e.beq_iff j i, lookup-erase j k m)

  pub insert-HasUniqueKeys :
      (k : K) (v : V) (m : List (K × V)) → HasUniqueKeys m → HasUniqueKeys (insert k v m)
  insert-HasUniqueKeys k v [] _ = (refl, tt)
  insert-HasUniqueKeys k v ((j, w) ∷ m) (fresh, u) =
      ground
        (arith, e.beq_iff k j, e.beq_iff j k, insert-HasUniqueKeys k v m u, lookup-insert j k v m)

  pub erase-HasUniqueKeys : (k : K) (m : List (K × V)) → HasUniqueKeys m → HasUniqueKeys (erase k m)
  erase-HasUniqueKeys k [] _ = tt
  erase-HasUniqueKeys k ((j, w) ∷ m) (fresh, u) =
      ground (arith, erase-HasUniqueKeys k m u, lookup-erase j k m)

  erase_of_absent : (k : K) (m : List (K × V)) → lookup k m ≡ none → erase k m ≡ m
  erase_of_absent k [] h = refl
  erase_of_absent k ((j, w) ∷ m) h = ground (arith, erase_of_absent k m)

  pub length-erase :
      (k : K) (m : List (K × V)) {v : V}
      → HasUniqueKeys m
      → lookup k m ≡ some v
      → length m ≡ suc (length (erase k m))
  length-erase k [] u h = cc
  length-erase k ((j, w) ∷ m) {v} (fresh, u) h = elim (Bool-cases (k == j)) [
    | inl same ↦
        let absent : lookup k m ≡ none = rw ((e.beq_iff k j).0 same) fresh in
        rw same (ap suc (sym (ap length (erase_of_absent k m absent))))
    | inr other ↦ rw other (ap suc (length-erase k m {v = v} u (rw other at h)))
  ]

-- A map whose keys are all in another of the same size has all its keys. The pigeonhole principle.
module _ {ℓ κ} {K : Type ℓ} {V : Type κ} ⦃e : Eq K⦄ where
  keys_but_first :
      (j : K) (w : V) (b a : List (K × V))
      → lookup j b ≡ none
      → ((k : K) → lookup k ((j, w) ∷ b) ≢ none → lookup k a ≢ none)
      → (k : K) → lookup k b ≢ none
      → lookup k (erase j a) ≢ none
  keys_but_first j w b a fresh sub k present = elim (Bool-cases (k == j)) [
    | inl same ↦ absurd (present (rw ((e.beq_iff k j).0 same) fresh))
    | inr other ↦ rw (lookup-erase k j a) (rw other (sub k (rw other present)))
  ]

  pub same_keys :
      (b a : List (K × V))
      → HasUniqueKeys b
      → HasUniqueKeys a
      → length a ≡ length b
      → ((k : K) → lookup k b ≢ none → lookup k a ≢ none)
      → (k : K) → lookup k b ≡ none
      → lookup k a ≡ none
  same_keys [] [] ub ua l sub k h = refl
  same_keys [] (x ∷ a) ub ua l sub k h = absurd (omega arith)
  same_keys ((j, w) ∷ b) a (fresh, ub) ua l sub k h = elim (Option-cases (lookup j a)) [
    | inl missing ↦ absurd (sub j (rw ((e.beq_iff j j).1 refl) (λ q. cc)) missing)
    | inr (v, found) ↦
        let shorter : length (erase j a) ≡ length b = omega (arith, length-erase j a ua found) in
        let ih : lookup k b ≡ none → lookup k (erase j a) ≡ none =
          same_keys b (erase j a) ub (erase-HasUniqueKeys j a ua) shorter
            (keys_but_first j w b a fresh sub) k in
        elim (Bool-cases (k == j)) [
          | inl same ↦ absurd (some-ne-none w (rw same at h))
          | inr other ↦ rw other at (sym (lookup-erase k j a) ∙ ih (rw other at h))
        ]
  ]
