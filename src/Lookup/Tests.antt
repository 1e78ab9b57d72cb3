-- ===== src/Lookup/Tests.antt =====
-- Recovery codes, and a text for some of them.
use mathlib.Core.Option.{some-injective, none-ne-some}
use kratos.Base.{&&-parts, sym, ◌∙◌}
use kratos.Base.{
  ℕ, ◌≡◌, ◌≢◌, ◌↔◌, refl, ap, String, Bool, true, false, ◌&&◌, Option, none, some, List, [], ◌∷◌,
  if◌then◌else◌, ◌==◌, nat_eq, string_eq, Bool-cases, inl, inr,
}
use kratos.Base.{err, lookup_invalid}
use kratos.Lookup.{RecoveryCode, mark_codes, use_code}
use kratos.Lookup.OneTime.{use_code-others}
use kratos.Identity.Persister.{}
use kratos.Identity.Persister.Read.{}

abbrev fresh_code : RecoveryCode
fresh_code = record { code = "c1"; used_at = none }

abbrev used_code : RecoveryCode
used_code = record { code = "c1"; used_at = some 100 }

abbrev second_code : RecoveryCode
second_code = record { code = "c2"; used_at = none }

abbrev is_100 : Option ℕ → Bool
is_100 none = false
is_100 (some t) = t == 100

abbrev pub write : List RecoveryCode → Option String
write [] = none
write (rc ∷ []) = if rc.code == "c1" && is_100 rc.used_at then some "used" else none
write (_ ∷ _ ∷ _) = none

abbrev pub read : String → Option (List RecoveryCode)
read text = if text == "used" then some (used_code ∷ []) else some (fresh_code ∷ [])

false-ne-true : false ≡ true → ⊥
false-ne-true h = cc

at_100 : (o : Option ℕ) → is_100 o ≡ true → o ≡ some 100
at_100 none h = cc
at_100 (some t) h = ap some ((nat_eq.beq_iff t 100).0 h)

read_used : (text : String) → some "used" ≡ some text → read text ≡ some (used_code ∷ [])
read_used text h = rw (← some-injective _ _ h) refl

the_used : (rc : RecoveryCode) → rc.code ≡ "c1" → rc.used_at ≡ some 100 → used_code ≡ rc
the_used rc code time = λ i. record { code = sym code i; used_at = sym time i }

pub read-write :
    (codes : List RecoveryCode) (text : String) → write codes ≡ some text → read text ≡ some codes
read-write [] text h = cc
read-write (rc ∷ []) text h = elim (Bool-cases (rc.code == "c1" && is_100 rc.used_at)) [
  | inr differs ↦ absurd (none-ne-some text (rw differs at h))
  | inl this ↦
      read_used text (rw this at h)
      ∙ ap (λ x. some (x ∷ []))
          (the_used rc ((string_eq.beq_iff rc.code "c1").0 (&&-parts _ _ this).0)
            (at_100 rc.used_at (&&-parts _ _ this).1))
]
read-write (_ ∷ _ ∷ _) text h = cc

pub write-nonempty :
    (codes : List RecoveryCode) (text : String) → write codes ≡ some text → (text == "") ≡ false
write-nonempty [] text h = cc
write-nonempty (rc ∷ []) text h = elim (Bool-cases (rc.code == "c1" && is_100 rc.used_at)) [
  | inr differs ↦ absurd (none-ne-some text (rw differs at h))
  | inl this ↦ rw (← some-injective _ _ (rw this at h)) refl
]
write-nonempty (_ ∷ _ ∷ _) text h = cc

c1-ne-c2 : ◌≢◌ {A = String} "c1" "c2"
c1-ne-c2 h = false-ne-true ((string_eq.beq_iff "c1" "c2").1 h)

use_code-others_example :
    (use_code 200 "c2" (used_code ∷ second_code ∷ []) ≡ err lookup_invalid)
    ↔ (use_code 200 "c2" (fresh_code ∷ second_code ∷ []) ≡ err lookup_invalid)
unfolding use_code mark_codes
use_code-others_example =
    use_code-others 100 200 "c1" "c2" (fresh_code ∷ second_code ∷ []) refl c1-ne-c2 lookup_invalid
