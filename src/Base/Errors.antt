-- ===== src/Base/Errors.antt =====
-- Go's `error`: the sentinel errors and error types that the code tells apart by `errors.Is` and
-- `errors.As`, and the results of functions that may fail.
use Prim.Native.Nat.{ℕ}
use Prim.Native.String.{String}
use mathlib.Core.Path.{◌≡◌, refl}
use mathlib.Core.Logic.{◌⊎◌, inl, inr}
use mathlib.Core.Bool.{Bool, true, false}
use mathlib.Core.Option.{Option, none, some}

pub data Err : Type 0 where
  -- session
  no_active_session : Err
  aal_not_satisfied : String → Err
  unknown_aal : String → Err
  identity_disabled : Err
  -- persistence: sqlcon.ErrNoRows, sqlcon.ErrUniqueViolation, anything else of the database
  no_rows unique_violation : Err
  db_error : String → Err
  -- identity
  protected_field_modified invalid_nid invalid_state : Err
  invalid_traits : String → Err
  -- flows
  flow_expired : ℕ → Err
  already_logged_in session_required_for_higher_aal address_not_verified hook_abort_flow : Err
  strategy_not_responsible completed_by_strategy asks_to_return_to_ui : Err
  no_login_strategy_responsible needs_re_auth : Err
  origin_header_needs_browser_flow cookie_header_needs_browser_flow strategy_disabled : Err
  -- lookup secrets
  no_lookup_defined lookup_already_used lookup_invalid : Err
  -- courier
  queue_empty smtp_unset unexpected_type : Err
  -- continuity
  not_resumable : Err
  -- links
  unknown_address : Err
  -- passwords
  network_failure unexpected_status_code : Err
  -- redirects
  redirect_url_not_allowed : Err
  -- a run-time panic: a nil pointer dereference, or a slice out of bounds
  panic : Err
  -- errors that are only passed on, by what they say
  bad_request internal other : String → Err

-- errors.Is(err, sqlcon.ErrNoRows)
abbrev pub is_no_rows : Err → Bool
is_no_rows no_rows = true
is_no_rows _ = false

-- A value, or the error that is returned in its place.
pub data Result {κ} (T : Type κ) : Type κ where
  err : Err → Result T
  ok : T → Result T

-- `if err != nil { return err }`
infixl 5 ◌>>=◌
abbrev pub ◌>>=◌ {κ ι} : {S : Type κ} {T : Type ι} → Result S → (S → Result T) → Result T
err e >>= next = err e
ok s >>= next = next s

-- `if test { return e }`
abbrev pub fail_if : Bool → Err → Result (Unit {0})
fail_if true e = err e
fail_if false e = ok tt

-- The same for a call that gives nothing but an error.
infixl 5 ◌>>◌
abbrev pub ◌>>◌ {ι} : {T : Type ι} → Result (Unit {0}) → Result T → Result T
first >> second = first >>= λ _. second

-- What the database, or another party, answers to one call: `none` where it went well.
abbrev pub check : Option Err → Result (Unit {0})
check none = ok tt
check (some e) = err e

-- `if err != nil { return err }` in code that has changed a state so far, for a call that leaves the
-- state as it is and for one that changes it too.
abbrev pub or_end {κ ι σ} :
    {W : Type σ} {S : Type κ} {T : Type ι} → W → Result S → (S → W × Result T) → W × Result T
or_end w (err e) next = (w, err e)
or_end w (ok s) next = next s

abbrev pub after {κ ι σ} :
    {W : Type σ} {S : Type κ} {T : Type ι} → W × Result S → (W → S → W × Result T) → W × Result T
after (w, err e) next = (w, err e)
after (w, ok s) next = next w s

-- What holds of an error and of what follows holds of the two together.
pub or_end_cases {κ ι σ ρ} :
    {W : Type σ} {S : Type κ} {T : Type ι} (P : W × Result T → Type ρ) (w : W) (r : Result S)
    (next : S → W × Result T)
    → ((e : Err) → P (w, err e))
    → ((s : S) → r ≡ ok s → P (next s))
    → P (or_end w r next)
or_end_cases P w (err e) next stops goes_on = stops e
or_end_cases P w (ok s) next stops goes_on = goes_on s refl

pub after_cases {κ ι σ ρ} :
    {W : Type σ} {S : Type κ} {T : Type ι} (P : W × Result T → Type ρ) (r : W × Result S)
    (next : W → S → W × Result T)
    → ((e : Err) → r.1 ≡ err e → P (r.0, err e))
    → ((s : S) → r.1 ≡ ok s → P (next r.0 s))
    → P (after r next)
after_cases P (w, err e) next stops goes_on = stops e refl
after_cases P (w, ok s) next stops goes_on = goes_on s refl

pub >>=-eq-ok {κ ι} :
    {S : Type κ} {T : Type ι} (first : Result S) (next : S → Result T) {t : T}
    → (first >>= next) ≡ ok t
    → (s : S) × (first ≡ ok s) × (next s ≡ ok t)
>>=-eq-ok (err e) next h = cc
>>=-eq-ok (ok s) next h = (s, refl, h)

pub Result-cases {ℓ} :
    {A : Type ℓ} (r : Result A) → ((a : A) × (r ≡ ok a)) ⊎ ((e : Err) × (r ≡ err e))
Result-cases (ok a) = inl (a, refl)
Result-cases (err e) = inr (e, refl)

pub err-ne-ok {ℓ} : {A : Type ℓ} {e : Err} {a : A} → err e ≡ ok a → ⊥
err-ne-ok h = cc

pub ok-ne-err {ℓ} : {A : Type ℓ} {e : Err} {a : A} → ok a ≡ err e → ⊥
ok-ne-err h = cc

pub ok-injective {ℓ} : {A : Type ℓ} {a b : A} → ok a ≡ ok b → a ≡ b
ok-injective h = cc
