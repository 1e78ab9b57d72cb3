-- ===== src/Login/Only.antt =====
-- What a write leaves where an identity had no session before.
use kratos.Base.{
  nat_eq, ◌==◌, ◌∷◌, ◌≡◌, Option-cases, Bool-cases, ok-injective, err-ne-ok, ok, Err, All, arith,
  [], List, some, none, Option, inr, inl, refl, ℕ, after, All-append,
}
use kratos.Base.Find.{find, update_where}
use kratos.Hook.Destroyer.{HasNone}
use kratos.Session.{Session}
use kratos.Session.Persister.{has_id, upsert_session}
use kratos.Session.Persister.Laws.{find_upserted}

-- The sessions of the identity in the network are the one with this id.
abbrev pub HasOnly : (nid iid id : ℕ) → List Session → Type 0
HasOnly nid iid id = All (λ row. row.identity_id ≡ iid → row.nid ≡ nid → row.id ≡ id)

HasNone-HasOnly :
    (nid iid id : ℕ) (table : List Session) → HasNone nid iid table → HasOnly nid iid id table
HasNone-HasOnly nid iid id [] h = tt
HasNone-HasOnly nid iid id (row ∷ table) (h, hs) =
    (λ owner network. ground (arith, h, owner, network), HasNone-HasOnly nid iid id table hs)

update-HasOnly :
    (nid iid : ℕ) (s : Session) (table : List Session)
    → HasOnly nid iid s.id table
    → HasOnly nid iid s.id (update_where (λ t. t.id == s.id) (λ _. s) table)
update-HasOnly nid iid s [] h = tt
update-HasOnly nid iid s (row ∷ table) (h, hs) = elim (Bool-cases (row.id == s.id)) [
  | inl same ↦ rw same (λ owner network. refl, update-HasOnly nid iid s table hs)
  | inr differs ↦ rw differs (h, update-HasOnly nid iid s table hs)
]

pub upsert-HasOnly :
    (fault : Option Err) (nid iid : ℕ) (s : Session) (table table' : List Session)
    → HasNone nid iid table
    → upsert_session fault nid s table ≡ ok table'
    → HasOnly nid iid s.id table'
unfolding upsert_session
upsert-HasOnly (some e) nid iid s table table' h k = absurd (err-ne-ok k)
upsert-HasOnly none nid iid s table table' h k =
    let row = record s { nid = nid; identity = none } in
    let only = HasNone-HasOnly nid iid s.id table h in
    elim (Option-cases (find (λ t. t.id == s.id) table)) [
      | inl absent ↦ rw (← ok-injective (rw (absent, upsert_session) at k)) (
          All-append (λ (t : Session). t.identity_id ≡ iid → t.nid ≡ nid → t.id ≡ s.id) table
            (row ∷ []) only ((λ owner network. refl), tt))
      | inr (old, present) ↦
          rw (← ok-injective (rw (present, upsert_session) at k))
            (update-HasOnly nid iid row table only)
    ]

pub upserted_row :
    (fault : Option Err) (nid : ℕ) (s : Session) (before after : List Session)
    → upsert_session fault nid s before ≡ ok after
    → find (has_id nid s.id) after ≡ some (record s { nid = nid; identity = none })
unfolding upsert_session
upserted_row (some e) nid s before after k = absurd (err-ne-ok k)
upserted_row none nid s before after k = find_upserted nid s before after k
