-- ===== src/Password/Accepted.antt =====
-- What an accepted password has passed.
use kratos.Base.{Option, ok-injective, string_eq, nat_eq, ◌==◌, ◌∷◌, ◌&&◌, ◌⊎◌, ◌∙◌, ◌≡◌, ◌≤◌}
use kratos.Base.{ltb, Option-cases, Bool-cases, Result-cases, err-ne-ok, err, ok, Result, Err}
use kratos.Base.{arith, [], List, some, none, not, false, true, Bool, inr, inl, ap, sym, refl}
use kratos.Base.{String, suc, zero, ℕ}
use Prim.Native.String.{len, slice}
use mathlib.Core.Path.{subst}
use mathlib.Core.Option.{some-injective}
use kratos.Base.Dict.{lookup, insert}
use kratos.Password.{Env, Hashes, Response, answer, no_answer, entry_of, scan, scanned, received}
use kratos.Password.{fetch, check_policy, check_breaches, validate, is_network_error, is_similar}

-- The service gave no answer, or one with another status code than 200.
abbrev pub is_outage : Response → Bool
is_outage no_answer = true
is_outage (answer code rows breaks_off) = not (code == 200)

true-ne-false : true ≡ false → ⊥
true-ne-false h = cc

none-ne-some {ℓ} : {A : Type ℓ} {a : A} → none ≡ some a → ⊥
none-ne-some h = cc

refused-ne-passed :
    {a b : Hashes} {e : Err} {u : Unit {0}}
    → ◌≡◌ {A = Option (Hashes × Result (Unit {0}))} (some (a, err e)) (some (b, ok u))
    → ⊥
refused-ne-passed h = cc

both : (a b : Bool) → (a && b) ≡ true → (a ≡ true) × (b ≡ true)
both true b h = (refl, h)
both false b h = cc

unlike : (a b : Bool) → (a && b) ≡ false → a ≡ true → b ≡ false
unlike true b h on = h
unlike false b h on = cc

module _ (E : Env) where
  abbrev IsNoOutage : Result (Unit {0}) → Type 0
  IsNoOutage (ok u) = Unit
  IsNoOutage (err e) = is_network_error E e ≡ false

  scan-IsNoOutage :
      (prefix : String) (rows : List String) (hashes : Hashes)
      → IsNoOutage (scan E prefix rows hashes).1
  unfolding scan
  scan-IsNoOutage prefix [] hashes = tt
  scan-IsNoOutage prefix (row ∷ rows) hashes =
      elim (Option-cases (entry_of E prefix (E.split row))) [
        | inl bad ↦ rw (scan, bad) refl
        | inr (entry, good) ↦
            rw (scan, good) (scan-IsNoOutage prefix rows (insert entry.0 entry.1 hashes))
      ]

  scanned-IsNoOutage :
      (breaks_off : Bool) (r : Hashes × Result (Unit {0}))
      → IsNoOutage r.1
      → IsNoOutage (scanned E breaks_off r).1
  scanned-IsNoOutage breaks_off (hashes, err e) h = h
  scanned-IsNoOutage true (hashes, ok u) h = refl
  scanned-IsNoOutage false (hashes, ok u) h = tt

  received_outage :
      (hpw : String) (hashes : Hashes) (response : Response) (e : Err)
      → (received E hpw hashes response).1 ≡ err e
      → is_network_error E e ≡ true
      → is_outage response ≡ true
  received_outage hpw hashes no_answer e h network = refl
  received_outage hpw hashes (answer code rows breaks_off) e h network =
      elim (Bool-cases (code == 200)) [
        | inr bad ↦ rw bad refl
        | inl good ↦
            let fine =
              scanned-IsNoOutage breaks_off (scan E (slice hpw 0 5) rows (insert hpw 0 hashes))
                (scan-IsNoOutage (slice hpw 0 5) rows (insert hpw 0 hashes)) in
            let failed' = rw (received, good) at h in
            absurd (true-ne-false (sym network ∙ subst IsNoOutage failed' fine))
      ]

  -- Why the breaches do not stand against a password: the check is off, its count is low enough, or
  -- the service is out and that is to be ignored.
  abbrev pub IsUnbreached : (after : Hashes) → (hpw : String) → Type 0
  IsUnbreached after hpw =
      (E.have_i_been_pwned_enabled ≡ false)
      ⊎ (((c : ℕ) × (lookup hpw after ≡ some c) × (c ≤ E.max_breaches))
          ⊎ ((is_outage (E.get (slice hpw 0 5)) ≡ true) × (E.ignore_network_errors ≡ true)))

  low_enough : (c : ℕ) (u : Unit {0}) → check_breaches E c ≡ ok u → c ≤ E.max_breaches
  low_enough c u h = elim (Bool-cases (ltb E.max_breaches c)) [
    | inl high ↦ absurd (err-ne-ok (rw (check_breaches, high) at h))
    | inr low ↦ ground (arith, low)
  ]

  policy :
      (identifier password : String) (counts : Bool)
      → check_policy E identifier password ≡ ok counts
      → (E.min_password_length ≤ len password)
        × (E.identifier_similarity_check_enabled ≡ true → is_similar E identifier password ≡ false)
        × (counts ≡ E.have_i_been_pwned_enabled)
  unfolding check_policy
  policy identifier password counts h =
      elim (Bool-cases (ltb (len password) E.min_password_length)) [
        | inl short ↦ absurd (err-ne-ok (rw (check_policy, short) at h))
        | inr long ↦
            elim (Bool-cases
              (E.identifier_similarity_check_enabled && is_similar E identifier password)) [
                | inl similar ↦ absurd (err-ne-ok (rw (check_policy, long, similar) at h))
                | inr differs ↦ (
                  ground (arith, long),
                  λ on.
                      unlike E.identifier_similarity_check_enabled
                        (is_similar E identifier password) differs on,
                  sym (ok-injective (rw (check_policy, long, differs) at h)),
                )
              ]
      ]

  unbreached :
      (n : ℕ) (hashes after : Hashes) (identifier password : String) (u : Unit {0})
      → validate E n hashes identifier password ≡ some (after, ok u)
      → (counts : Bool) × (check_policy E identifier password ≡ ok counts)
        × IsUnbreached after (E.sha1 password)
  unfolding validate fetch
  unbreached zero hashes after identifier password u h = absurd (none-ne-some h)
  unbreached (suc n) hashes after identifier password u h =
      elim (Result-cases (check_policy E identifier password)) [
        | inr (e, bad) ↦ absurd (refused-ne-passed (rw (validate, bad) at h))
        | inl (false, fine) ↦ (false, fine, inl (sym (policy identifier password false fine).2))
        | inl (true, fine) ↦ elim (Option-cases (lookup (E.sha1 password) hashes)) [
          | inr (c, known) ↦
              let same = some-injective _ _ (rw (validate, fine, known) at h) in
              (
                true,
                fine,
                inr (inl (c, rw (← ap (λ p. p.0) same) known, low_enough c u (ap (λ p. p.1) same))),
              )
          | inl unknown ↦ elim (Result-cases (fetch E (E.sha1 password) hashes).1) [
            | inl (w, fetched) ↦
                unbreached n (fetch E (E.sha1 password) hashes).0 after identifier password u
                  (rw (validate, fine, unknown, fetched) at h)
            | inr (e, broke) ↦ elim (Bool-cases (is_network_error E e && E.ignore_network_errors)) [
              | inl passed ↦
                  let (network, ignored) =
                    both (is_network_error E e) E.ignore_network_errors passed in
                  (
                    true,
                    fine,
                    inr (
                        inr (
                          received_outage (E.sha1 password) hashes
                              (E.get (slice (E.sha1 password) 0 5)) e broke network,
                          ignored,
                        )),
                  )
              | inr stops ↦
                  absurd (refused-ne-passed (rw (validate, fine, unknown, broke, stops) at h))
            ]
          ]
        ]
      ]

  -- A password that the validator accepts is long enough and, where that is checked, not similar to
  -- the identifier; and either breaches are not checked, or the count that is known of it afterwards
  -- is at most the configured one, or the service is out and the configuration ignores that.
  pub validate_accepts :
      (n : ℕ) (hashes after : Hashes) (identifier password : String) (u : Unit {0})
      → validate E n hashes identifier password ≡ some (after, ok u)
      → (E.min_password_length ≤ len password)
        × (E.identifier_similarity_check_enabled ≡ true → is_similar E identifier password ≡ false)
        × IsUnbreached after (E.sha1 password)
  validate_accepts n hashes after identifier password u h =
      let (counts, fine, clean) = unbreached n hashes after identifier password u h in
      let (long, differs, same) = policy identifier password counts fine in (long, differs, clean)
