-- ===== src/Session/Persister/Laws.antt =====
-- What the statements on the sessions table leave for the queries that follow.
use kratos.Base.{>>=-eq-ok, check, ◌>>=◌, no_rows, ap, Result-cases, ℕ, ◌≡◌, refl, sym, ◌∙◌}
use kratos.Base.{String, Bool, true, Option, none, some, List, if◌then◌else◌, ◌==◌, nat_eq}
use kratos.Base.{string_eq, arith, Option-cases, inl, inr, Result, ok, err, Err, ok-injective}
use kratos.Base.{err-ne-ok, Bool-cases}
use kratos.Base.Find.{find_fits, find, update_where, count, update_if, find-update_where}
use kratos.Base.Find.{find-append, find_mono, find_replaced, map_option}
use kratos.Identity.{Identity}
use kratos.Session.{Session}
use kratos.Session.Persister.{has_id, has_token, first, get_session, get_session_by_token}
use kratos.Session.Persister.{upsert_session, deactivate, revoke_session_by_token, is_owned}
use kratos.Session.Persister.{revoke_session, is_other, revoke_sessions_identity_except}
use kratos.Session.Persister.{with_identity}

-- A session as a revocation leaves it: inactive where it fits, the same otherwise.
abbrev pub revoked : (Session → Bool) → Session → Session
revoked p s = if p s then deactivate s else s

abbrev pub map_result : (Session → Session) → Result Session → Result Session
map_result f (ok s) = ok (f s)
map_result f (err e) = err e

id_of_has_id : (nid id : ℕ) (s : Session) → has_id nid id s ≡ true → (s.id == id) ≡ true
id_of_has_id nid id s h = ground arith

first_some : (o : Option Session) (s : Session) → first o ≡ ok s → o ≡ some s
first_some none s h = absurd (err-ne-ok h)
first_some (some t) s h = ap some (ok-injective h)

token_of_has_token :
    (nid : ℕ) (token : String) (s : Session)
    → has_token nid token s ≡ true
    → (s.token ≡ token) × (s.nid ≡ nid)
token_of_has_token nid token s h = ground (arith, string_eq.beq_iff s.token token)

pub find_upserted :
    (nid : ℕ) (s : Session) (table table' : List Session)
    → upsert_session none nid s table ≡ ok table'
    → find (has_id nid s.id) table' ≡ some (record s { nid = nid; identity = none })
unfolding upsert_session
find_upserted nid s table table' h =
    let row = record s { nid = nid; identity = none } in
    let fits : has_id nid s.id row ≡ true = ground arith in
    elim (Option-cases (find (λ t. t.id == s.id) table)) [
      | inl absent ↦ rw (← ok-injective (rw (absent, upsert_session) at h)) (
          find-append (has_id nid s.id) table row
            (find_mono (λ t. t.id == s.id) (has_id nid s.id) table (id_of_has_id nid s.id) absent)
            fits)
      | inr (old, present) ↦ rw (← ok-injective (rw (present, upsert_session) at h)) (
          find_replaced (λ t. t.id == s.id) (has_id nid s.id) row table {y = old} present
            (id_of_has_id nid s.id) fits)
    ]

module _ (get_identity : ℕ → Result Identity) where
  with_identity_missing :
      (s : Session) {e : Err}
      → get_identity s.identity_id ≡ err e
      → with_identity get_identity s ≡ err e
  unfolding with_identity
  with_identity_missing s h = rw h

  with_identity_found :
      (s : Session) {i : Identity}
      → get_identity s.identity_id ≡ ok i
      → with_identity get_identity s ≡ ok (record s { identity = some i })
  unfolding with_identity
  with_identity_found s h = rw h

  revoked_identity_id :
      (p : Session → Bool) (s : Session) → (revoked p s).identity_id ≡ s.identity_id
  revoked_identity_id p s = ground arith

  revoked-with :
      (p : Session → Bool) (s : Session) (i : Identity)
      → p (record s { identity = some i }) ≡ p s
      → record (revoked p s) { identity = some i } ≡ revoked p (record s { identity = some i })
  revoked-with p s i blind =
      rw blind (elim (Bool-cases (p s)) [ inl yes' ↦ rw yes' | inr no' ↦ rw no' ])

  with_identity-revoked :
      (p : Session → Bool) (s : Session)
      → ((s : Session) (i : Identity) → p (record s { identity = some i }) ≡ p s)
      → with_identity get_identity (revoked p s)
        ≡ map_result (revoked p) (with_identity get_identity s)
  with_identity-revoked p s blind = elim (Result-cases (get_identity s.identity_id)) [
    | inr (e, missing) ↦
        rw (with_identity_missing s missing)
          (with_identity_missing (revoked p s) (rw (revoked_identity_id p s) missing))
    | inl (i, found) ↦ rw (with_identity_found s found) (
        with_identity_found (revoked p s) (rw (revoked_identity_id p s) found)
        ∙ ap ok (revoked-with p s i (blind s i)))
  ]

  first-revoked :
      (p : Session → Bool) (o : Option Session)
      → ((s : Session) (i : Identity) → p (record s { identity = some i }) ≡ p s)
      → (first (map_option (update_if p deactivate) o) >>= with_identity get_identity)
        ≡ map_result (revoked p) (first o >>= with_identity get_identity)
  first-revoked p none blind = refl
  first-revoked p (some s) blind = with_identity-revoked p s blind

  -- A revocation by an UPDATE shows in what a token then gives, and in nothing else of it. The
  -- condition does not ask for the identity, which is joined to the row after the query.
  get_by_token-revoked :
      (nid : ℕ) (token : String) (p : Session → Bool) (table : List Session)
      → ((s : Session) (i : Identity) → p (record s { identity = some i }) ≡ p s)
      → get_session_by_token get_identity none nid token (update_where p deactivate table)
        ≡ map_result (revoked p) (get_session_by_token get_identity none nid token table)
  unfolding get_session_by_token
  get_by_token-revoked nid token p table blind =
      rw (find-update_where (has_token nid token) p deactivate table (λ s. refl))
        (first-revoked p (find (has_token nid token) table) blind)

  -- After "log out everywhere else" the sessions that any token gives, in any network, are the
  -- ones from before, save that those of the identity in this network other than `sid` are
  -- inactive. The count is the number of the rows that the statement changed.
  pub revoke_sessions_identity_except_lem :
      (nid iid sid : ℕ) (table table' : List Session) (n : ℕ)
      → revoke_sessions_identity_except none nid iid sid table ≡ ok (table', n)
      → ((nid' : ℕ) (token : String)
          → get_session_by_token get_identity none nid' token table'
            ≡ map_result
                (revoked (is_other nid iid sid))
                (get_session_by_token get_identity none nid' token table))
        × (n ≡ count (is_other nid iid sid) table)
  unfolding revoke_sessions_identity_except
  revoke_sessions_identity_except_lem nid iid sid table table' n h =
      let same = ok-injective h in
      (
        λ nid' token.
            rw (← ap (λ r. r.0) same)
              (get_by_token-revoked nid' token (is_other nid iid sid) table (λ s i. refl)),
        sym (ap (λ r. r.1) same),
      )

  -- Revoking one session by its id: only a session of this identity, with this id, in this
  -- network becomes inactive, whatever id the caller asked for.
  pub revoke_session_lem :
      (nid iid sid : ℕ) (table table' : List Session)
      → revoke_session none nid iid sid table ≡ ok table'
      → (nid' : ℕ) (token : String)
      → get_session_by_token get_identity none nid' token table'
        ≡ map_result
            (revoked (is_owned nid iid sid))
            (get_session_by_token get_identity none nid' token table)
  unfolding revoke_session
  revoke_session_lem nid iid sid table table' h nid' token =
      rw (← ok-injective h)
        (get_by_token-revoked nid' token (is_owned nid iid sid) table (λ s i. refl))

  -- Revoking by token: that token's sessions in this network become inactive, and no other.
  pub revoke_session_by_token_lem :
      (nid : ℕ) (token : String) (table table' : List Session)
      → revoke_session_by_token none nid token table ≡ ok table'
      → (nid' : ℕ) (token' : String)
      → get_session_by_token get_identity none nid' token' table'
        ≡ map_result
            (revoked (has_token nid token))
            (get_session_by_token get_identity none nid' token' table)
  unfolding revoke_session_by_token
  revoke_session_by_token_lem nid token table table' h nid' token' =
      rw (← revoked_table h)
        (get_by_token-revoked nid' token' (has_token nid token) table (λ s i. refl))
    where
      revoked_table :
          (if count (has_token nid token) table == 0
              then err no_rows
              else ok (update_where (has_token nid token) deactivate table))
            ≡ ok table'
          → update_where (has_token nid token) deactivate table ≡ table'
      revoked_table e = elim (Bool-cases (count (has_token nid token) table == 0)) [
        | inl empty ↦ absurd (err-ne-ok (rw empty at e))
        | inr some_row ↦ ok-injective (rw some_row at e)
      ]

  -- What was written is read back under its id, with the network of the context and the identity
  -- that the pool has, whether the row was new or replaced one.
  pub get_session-upsert_session :
      (nid : ℕ) (s : Session) (i : Identity) (table table' : List Session)
      → upsert_session none nid s table ≡ ok table'
      → get_identity s.identity_id ≡ ok i
      → get_session get_identity none nid s.id table'
        ≡ ok (record s { nid = nid; identity = some i })
  unfolding get_session
  get_session-upsert_session nid s i table table' h found =
      rw (find_upserted nid s table table' h)
        (with_identity_found (record s { nid = nid; identity = none }) found)

  -- A session that a token gives is a row with that token in that network, with its identity.
  pub get_session_by_token-eq-ok :
      (fault : Option Err) (nid : ℕ) (token : String) (table : List Session) {se : Session}
      → get_session_by_token get_identity fault nid token table ≡ ok se
      → (se.token ≡ token) × (se.nid ≡ nid)
  unfolding get_session_by_token with_identity
  get_session_by_token-eq-ok fault nid token table h =
      let (_, _, after_check) =
        >>=-eq-ok (check fault)
          (λ _. first (find (has_token nid token) table) >>= with_identity get_identity) h in
      let (row, found, joined) =
        >>=-eq-ok (first (find (has_token nid token) table)) (with_identity get_identity)
          after_check in
      let (i, _, same) = >>=-eq-ok (get_identity row.identity_id) _ joined in
      let fits = find_fits (has_token nid token) table {a = row} (first_some _ row found) in
      let whole : record row { identity = some i } ≡ _ = ok-injective same in
      rw (← whole) (token_of_has_token nid token row fits)
