-- ===== src/Password/Terminates.antt =====
-- The validator calls itself once at most.
use kratos.Base.{◌&&◌, Result-cases, nat_eq, ◌==◌, ◌∷◌, ◌≡◌, string_eq, Option-cases, Bool-cases}
use kratos.Base.{err-ne-ok, err, ok, Result, [], List, some, false, true, Bool, inr, inl, refl}
use kratos.Base.{String, suc, ℕ}
use kratos.Base.Dict.{lookup, insert, lookup-insert}
use kratos.Password.{slice, Env, Hashes, Response, answer, no_answer, entry_of, scan, scanned}
use kratos.Password.{received, fetch, check_policy, check_breaches, validate, is_network_error}

abbrev pub IsKnown : String → Hashes → Type 0
IsKnown key hashes = (c : ℕ) × (lookup key hashes ≡ some c)

insert-IsKnown :
    (key j : String) (c : ℕ) (hashes : Hashes)
    → IsKnown key hashes
    → IsKnown key (insert j c hashes)
insert-IsKnown key j c hashes (d, known) = elim (Bool-cases (key == j)) [
  | inl same ↦ (c, rw (lookup-insert key j c hashes, same) refl)
  | inr differ ↦ (d, rw (lookup-insert key j c hashes, differ) known)
]

inserted-IsKnown : (key : String) (c : ℕ) (hashes : Hashes) → IsKnown key (insert key c hashes)
inserted-IsKnown key c hashes =
    let same : (key == key) ≡ true = (string_eq.beq_iff key key).1 refl in
    (c, rw (lookup-insert key key c hashes, same) refl)

module _ (E : Env) where
  scan-IsKnown :
      (key prefix : String) (rows : List String) (hashes : Hashes)
      → IsKnown key hashes
      → IsKnown key (scan E prefix rows hashes).0
  unfolding scan
  scan-IsKnown key prefix [] hashes known = known
  scan-IsKnown key prefix (row ∷ rows) hashes known =
      elim (Option-cases (entry_of E prefix (E.split row))) [
        | inl bad ↦ rw (scan, bad) known
        | inr (entry, good) ↦
            rw (scan, good)
              (scan-IsKnown key prefix rows (insert entry.0 entry.1 hashes)
                (insert-IsKnown key entry.0 entry.1 hashes known))
      ]

  scanned_hashes :
      (breaks_off : Bool) (r : Hashes × Result (Unit {0})) → (scanned E breaks_off r).0 ≡ r.0
  scanned_hashes breaks_off (hashes, err e) = refl
  scanned_hashes true (hashes, ok u) = refl
  scanned_hashes false (hashes, ok u) = refl

  received-IsKnown :
      (hpw : String) (hashes : Hashes) (response : Response) (u : Unit {0})
      → (received E hpw hashes response).1 ≡ ok u
      → IsKnown hpw (received E hpw hashes response).0
  received-IsKnown hpw hashes no_answer u h = absurd (err-ne-ok h)
  received-IsKnown hpw hashes (answer code rows breaks_off) u h = elim (Bool-cases (code == 200)) [
    | inr bad ↦ absurd (err-ne-ok (rw (received, bad) at h))
    | inl good ↦
        rw (received, good, scanned_hashes breaks_off)
          (scan-IsKnown hpw (slice hpw 0 5) rows (insert hpw 0 hashes)
            (inserted-IsKnown hpw 0 hashes))
  ]

  -- With the count known, no answer is asked for.
  validate_known :
      (hashes : Hashes) (identifier password : String)
      → IsKnown (E.sha1 password) hashes
      → (r : Hashes × Result (Unit {0})) × ((n : ℕ)
          → validate E (suc n) hashes identifier password ≡ some r)
  unfolding validate
  validate_known hashes identifier password (c, known) =
      elim (Result-cases (check_policy E identifier password)) [
        | inr (e, refused) ↦ ((hashes, err e), λ n. rw (validate, refused) refl)
        | inl (false, fine) ↦ ((hashes, ok tt), λ n. rw (validate, fine) refl)
        | inl (true, fine) ↦ ((hashes, check_breaches E c), λ n. rw (validate, fine, known) refl)
      ]

  -- The validator gives a verdict for every password, whatever counts it has seen and whatever the
  -- service answers, and it calls itself at most once: two rounds and any larger number of them give
  -- the same.
  pub validate_terminates :
      (hashes : Hashes) (identifier password : String)
      → (r : Hashes × Result (Unit {0})) × ((n : ℕ)
          → validate E (suc (suc n)) hashes identifier password ≡ some r)
  unfolding validate fetch
  validate_terminates hashes identifier password =
      elim (Result-cases (check_policy E identifier password)) [
        | inr (e, refused) ↦ ((hashes, err e), λ n. rw (validate, refused) refl)
        | inl (false, fine) ↦ ((hashes, ok tt), λ n. rw (validate, fine) refl)
        | inl (true, fine) ↦ elim (Option-cases (lookup (E.sha1 password) hashes)) [
          | inr (c, known) ↦ ((hashes, check_breaches E c), λ n. rw (validate, fine, known) refl)
          | inl unknown ↦ elim (Result-cases (fetch E (E.sha1 password) hashes).1) [
            | inl (v, fetched) ↦
                let (r, again) =
                  validate_known (fetch E (E.sha1 password) hashes).0 identifier password (
                    received-IsKnown (E.sha1 password) hashes (E.get (slice (E.sha1 password) 0 5))
                      v fetched) in
                (r, λ n. rw (validate, fine, unknown, fetched) (again n))
            | inr (e, failed) ↦
                elim (Bool-cases (is_network_error E e && E.ignore_network_errors)) [
                  | inl ignored ↦ (
                    ((fetch E (E.sha1 password) hashes).0, ok tt),
                    λ n. rw (validate, fine, unknown, failed, ignored) refl,
                  )
                  | inr counts ↦ (
                    ((fetch E (E.sha1 password) hashes).0, err e),
                    λ n. rw (validate, fine, unknown, failed, counts) refl,
                  )
                ]
          ]
        ]
      ]
