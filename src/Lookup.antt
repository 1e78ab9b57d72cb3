-- ===== src/Lookup.antt =====
-- selfservice/strategy/lookup: recovery codes as a second factor.
pub mod OneTime
pub mod Login
pub mod Spent
pub mod Tests
use kratos.Base.{ℕ, ◌≡◌, String, Bool, true, false, Option, none, some}
use kratos.Base.{List, [], ◌∷◌, if◌then◌else◌, ◌==◌, string_eq}
use kratos.Base.{Result, ok, err, Err, lookup_already_used, lookup_invalid, ◌>>=◌}

pub record RecoveryCode : Type 0 where
  pub code : String
  -- `none` is the zero time
  pub used_at : Option ℕ

abbrev pub is_unused : RecoveryCode → Bool
is_unused rc = elim rc.used_at [ none ↦ true | some t ↦ false ]

-- The loop over the codes: each unused code that is equal to the submitted one is marked, and the
-- first used one that is ends the loop with an error. `found` is the variable of that name.
unfoldable pub mark_codes :
    (now : ℕ) → String → Bool → List RecoveryCode → Result (Bool × List RecoveryCode)
mark_codes now p found [] = ok (found, [])
mark_codes now p found (rc ∷ codes) =
    let marked = mark_codes now p true codes in
    let passed = mark_codes now p found codes in
    if rc.code == p
    then (if is_unused rc
        then (do r ← marked; ok (r.0, record rc { used_at = some now } ∷ r.1))
        else err lookup_already_used)
    else (do r ← passed; ok (r.0, rc ∷ r.1))

unfoldable pub use_code : (now : ℕ) → String → List RecoveryCode → Result (List RecoveryCode)
use_code now p codes = do
  r ← mark_codes now p false codes
  if r.0 then ok r.1 else err lookup_invalid
