-- ===== src/Lookup/OneTime.antt =====
-- A recovery code works once.
use kratos.Base.{◌&&◌, ◌||◌, not, ◌↔◌, ok-ne-err}
use kratos.Base.{
  ℕ, ◌≡◌, refl, ◌≢◌, String, Bool, true, false, some, List, [], ◌∷◌, any, if◌then◌else◌, ◌==◌,
  string_eq, arith, Bool-cases, inl, inr,
}
use kratos.Base.{ok, err, Err, lookup_already_used, lookup_invalid, err-ne-ok, ok-injective}
use kratos.Lookup.{RecoveryCode, is_unused, mark_codes, use_code}

-- The codes with all those equal to `p` marked.
abbrev pub all_marked : ℕ → String → List RecoveryCode → List RecoveryCode
all_marked now p [] = []
all_marked now p (rc ∷ codes) =
    (if rc.code == p then record rc { used_at = some now } else rc) ∷ all_marked now p codes

abbrev pub has_code : String → List RecoveryCode → Bool
has_code p codes = any (λ rc. rc.code == p) codes

abbrev pub has_used : String → List RecoveryCode → Bool
has_used p codes = any (λ rc. rc.code == p && not (is_unused rc)) codes

mark_codes_lem :
    (now : ℕ) (p : String) (found : Bool) (codes : List RecoveryCode)
    → mark_codes now p found codes ≡ (
        if has_used p codes
        then err lookup_already_used
        else ok (found || has_code p codes, all_marked now p codes))
unfolding mark_codes
mark_codes_lem now p found [] = ground arith
mark_codes_lem now p found (rc ∷ codes) =
    let marked = mark_codes_lem now p true codes in
    let passed = mark_codes_lem now p found codes in ground (arith, marked, passed)

use_code-eq :
    (now : ℕ) (p : String) (codes : List RecoveryCode)
    → use_code now p codes ≡ (
        if has_used p codes
        then err lookup_already_used
        else if has_code p codes
        then ok (all_marked now p codes)
        else err lookup_invalid)
unfolding use_code
use_code-eq now p codes =
    rw (mark_codes_lem now p false codes)
      (elim (Bool-cases (has_used p codes)) [ inl used ↦ rw used | inr unused ↦ rw unused ])

has_used-all_marked :
    (now : ℕ) (p : String) (codes : List RecoveryCode)
    → has_used p (all_marked now p codes) ≡ has_code p codes
has_used-all_marked now p [] = refl
has_used-all_marked now p (rc ∷ codes) = ground (arith, has_used-all_marked now p codes)

others_unchanged :
    (now : ℕ) (p q : String) (codes : List RecoveryCode)
    → p ≢ q
    → (has_used q (all_marked now p codes) ≡ has_used q codes)
      × (has_code q (all_marked now p codes) ≡ has_code q codes)
others_unchanged now p q [] h = (refl, refl)
others_unchanged now p q (rc ∷ codes) h =
    let (u, c) = others_unchanged now p q codes h in
    (
      ground (arith, u, string_eq.beq_iff rc.code p, string_eq.beq_iff rc.code q),
      ground (arith, c, string_eq.beq_iff rc.code p, string_eq.beq_iff rc.code q),
    )

spent_codes :
    (now : ℕ) (p : String) (codes : List RecoveryCode) {codes' : List RecoveryCode}
    → use_code now p codes ≡ ok codes'
    → (all_marked now p codes ≡ codes') × (has_used p codes ≡ false) × (has_code p codes ≡ true)
spent_codes now p codes h = elim (Bool-cases (has_used p codes)) [
  | inl used ↦ absurd (err-ne-ok (rw used at rw (use_code-eq now p codes) at h))
  | inr unused ↦ elim (Bool-cases (has_code p codes)) [
    | inl known ↦
        (ok-injective (rw (unused, known) at rw (use_code-eq now p codes) at h), unused, known)
    | inr unknown ↦ absurd (err-ne-ok (rw (unused, unknown) at rw (use_code-eq now p codes) at h))
  ]
]

-- A code that was accepted is refused as already used from then on, at any later time.
pub use_code-twice :
    (now now' : ℕ) (p : String) (codes : List RecoveryCode) {codes' : List RecoveryCode}
    → use_code now p codes ≡ ok codes'
    → use_code now' p codes' ≡ err lookup_already_used
use_code-twice now now' p codes h =
    let (same, unused, known) = spent_codes now p codes h in
    rw (← same)
      (rw (use_code-eq now' p (all_marked now p codes), has_used-all_marked now p codes, known))

-- Accepting one code changes nothing for the others: a different code is accepted afterwards when
-- it was before, and refused with the same error when it was refused.
pub use_code-others :
    (now now' : ℕ) (p q : String) (codes : List RecoveryCode) {codes' : List RecoveryCode}
    → use_code now p codes ≡ ok codes'
    → p ≢ q
    → ((e : Err) → (use_code now' q codes' ≡ err e) ↔ (use_code now' q codes ≡ err e))
use_code-others now now' p q codes h differ e =
    let (same, _, _) = spent_codes now p codes h in
    let (u, c) = others_unchanged now p q codes differ in
    rw (← same) (
      rw (use_code-eq now' q (all_marked now p codes), use_code-eq now' q codes, u, c)
        (go (has_used q codes) (has_code q codes)))
  where
    go :
        (used known : Bool)
        → ((if used
              then err lookup_already_used
              else if known
              then ok (all_marked now' q (all_marked now p codes))
              else err lookup_invalid)
            ≡ err e)
          ↔ ((if used
                then err lookup_already_used
                else if known
                then ok (all_marked now' q codes)
                else err lookup_invalid)
              ≡ err e)
    go true known = (λ x. x, λ x. x)
    go false true = (λ x. absurd (ok-ne-err x), λ x. absurd (ok-ne-err x))
    go false false = (λ x. x, λ x. x)
