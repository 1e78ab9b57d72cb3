-- ===== src/Session/Persister/Runs/Refines.antt =====
-- The table of sessions implements a function from ids to rows.
use kratos.Base.Find.{map_option, update_if, count, update_where, filter}
use kratos.Base.{◌==◌, ◌∷◌, ◌∙◌, ◌≡◌, nat_eq, Option-cases, Bool-cases, Err, [], List, some, none}
use kratos.Base.{Option, not, Bool, inr, inl, ap, sym, refl, ℕ}
use mathlib.Core.Path.{subst}
use kratos.Session.{Session}
use kratos.Session.Persister.{upsert_session, delete_where, delete_session}
use kratos.Session.Persister.{delete_sessions_by_identity, delete_session_by_token}
use kratos.Session.Persister.{revoke_session_by_token, revoke_session}
use kratos.Session.Persister.{revoke_sessions_identity_except, has_id, has_identity, has_token}
use kratos.Session.Persister.{is_owned, is_other, deactivate, affecting}
use kratos.Session.Persister.Rows.{is_key, read, HasUniqueIds, drop_if, read-filter}
use kratos.Session.Persister.Rows.{filter-HasUniqueIds, update_where-HasUniqueIds}
use kratos.Session.Persister.Rows.{read-update_where, filter_of_count, update_of_count}
use kratos.Session.Persister.Rows.{read-append, append-HasUniqueIds, read-replace}
use kratos.Session.Persister.Runs.{Write, upsert, delete, delete_by_identity, delete_by_token}
use kratos.Session.Persister.Runs.{revoke_by_token, revoke, revoke_others, write, left_by, run}
use kratos.Session.Persister.Runs.{change, answered, replay}

-- The table implements the rows: no id twice, and each id with its row.
abbrev pub Implements : List Session → (ℕ → Option Session) → Type 0
Implements table rows = HasUniqueIds table × ((id : ℕ) → read table id ≡ rows id)

affected :
    (n : ℕ) (table' table : List Session)
    → (n ≡ 0 → table' ≡ table)
    → left_by (affecting n table') table ≡ table'
affected n table' table same = elim (Bool-cases (n == 0)) [
  | inl none_hit ↦ rw none_hit (sym (same ((nat_eq.beq_iff n 0).0 none_hit)))
  | inr hit ↦ rw hit refl
]

deleted :
    (p : Session → Bool) (table : List Session)
    → HasUniqueIds table
    → Implements
        (left_by (affecting (count p table) (filter (λ s. not (p s)) table)) table)
        (λ id. drop_if p (read table id))
deleted p table u =
    subst (λ t. Implements t (λ id. drop_if p (read table id)))
      (sym (affected (count p table) _ table (filter_of_count p table)))
      (filter-HasUniqueIds (λ s. not (p s)) table u, λ id. read-filter p id table u)

changed :
    (p : Session → Bool) (table : List Session)
    → HasUniqueIds table
    → Implements
        (update_where p deactivate table)
        (λ id. map_option (update_if p deactivate) (read table id))
changed p table u = (
  update_where-HasUniqueIds p deactivate table (λ s _. refl) u,
  λ id. read-update_where p deactivate id table (λ s _. refl),
)

changed_some :
    (p : Session → Bool) (table : List Session)
    → HasUniqueIds table
    → Implements
        (left_by (affecting (count p table) (update_where p deactivate table)) table)
        (λ id. map_option (update_if p deactivate) (read table id))
changed_some p table u =
    subst (λ t. Implements t (λ id. map_option (update_if p deactivate) (read table id)))
      (sym (affected (count p table) _ table (update_of_count p deactivate table)))
      (changed p table u)

upserted :
    (nid : ℕ) (s : Session) (table : List Session)
    → HasUniqueIds table
    → Implements
        (left_by (upsert_session none nid s table) table)
        (λ id. change nid (upsert s) id (read table id))
unfolding upsert_session
upserted nid s table u =
    let row = record s { nid = nid; identity = none } in
    elim (Option-cases (read table s.id)) [
      | inl missing ↦
          rw (upsert_session, missing)
            (append-HasUniqueIds row table missing u, λ id. read-append row id table missing)
      | inr (before, found) ↦
          rw (upsert_session, found)
            (
              update_where-HasUniqueIds (is_key s.id) (λ _. row) table
                  (λ t hit. sym ((nat_eq.beq_iff t.id s.id).0 hit)) u,
              λ id. read-replace row id table {old = before} found,
            )
    ]

statements : Unit {0}
unfolding write upsert_session delete_where delete_session delete_sessions_by_identity
    delete_session_by_token revoke_session_by_token revoke_session revoke_sessions_identity_except
statements = tt

refused_write :
    (nid : ℕ) (e : Err) (w : Write) (table : List Session)
    → left_by (write nid (some e) w table) table ≡ table
unfolding statements
refused_write nid e (upsert s) table = refl
refused_write nid e (delete sid) table = refl
refused_write nid e (delete_by_identity iid) table = refl
refused_write nid e (delete_by_token token) table = refl
refused_write nid e (revoke_by_token token) table = refl
refused_write nid e (revoke iid sid) table = refl
refused_write nid e (revoke_others iid sid) table = refl

done :
    (nid : ℕ) (w : Write) (table : List Session)
    → HasUniqueIds table
    → Implements (left_by (write nid none w table) table) (λ id. change nid w id (read table id))
unfolding statements
done nid (upsert s) table u = upserted nid s table u
done nid (delete sid) table u = deleted (has_id nid sid) table u
done nid (delete_by_identity iid) table u = deleted (has_identity nid iid) table u
done nid (delete_by_token token) table u = deleted (has_token nid token) table u
done nid (revoke_by_token token) table u = changed_some (has_token nid token) table u
done nid (revoke iid sid) table u = changed (is_owned nid iid sid) table u
done nid (revoke_others iid sid) table u = changed (is_other nid iid sid) table u

written :
    (nid : ℕ) (fault : Option Err) (w : Write) (table : List Session) (rows : ℕ → Option Session)
    → Implements table rows
    → Implements
        (left_by (write nid fault w table) table)
        (λ id. answered fault (rows id) (change nid w id (rows id)))
written nid (some e) w table rows (u, same) = rw (refused_write nid e w table) (u, same)
written nid none w table rows (u, same) =
    let (unique, reads) = done nid w table u in
    (unique, λ id. reads id ∙ ap (change nid w id) (same id))

-- Whatever statements are executed on the table of sessions, one after another, each with success or
-- with an error of the database: a table without duplicate ids stays one, and every id has the row
-- that the specification gives it, in which an upsert sets one row, a deletion drops the rows that
-- fit and a revocation deactivates them, and a failed statement changes nothing.
pub run_refines :
    (nid : ℕ) (ws : List (Option Err × Write)) (table : List Session) (rows : ℕ → Option Session)
    → Implements table rows
    → Implements (run nid ws table) (replay nid ws rows)
unfolding run
run_refines nid [] table rows h = h
run_refines nid ((fault, w) ∷ ws) table rows h =
    run_refines nid ws (left_by (write nid fault w table) table)
      (λ id. answered fault (rows id) (change nid w id (rows id)))
      (written nid fault w table rows h)
