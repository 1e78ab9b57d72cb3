-- ===== src/Hook/Destroyer.antt =====
-- Which logins the session destroyer lets pass.
use kratos.Base.Find.{count, filter}
use kratos.Base.{
  nat_eq, ◌==◌, ◌∷◌, ◌≡◌, Bool-cases, no_rows, ok-injective, err-ne-ok, err, ok, All, [], List,
  some, none, not, false, inr, inl, refl, ℕ,
}
use kratos.Identity.{Identity}
use kratos.Session.{Session}
use kratos.Session.Persister.{has_identity, delete_where, delete_sessions_by_identity}
use kratos.Hook.{execute_session_destroyer}

abbrev pub HasNone : (nid iid : ℕ) → List Session → Type 0
HasNone nid iid = All (λ s. has_identity nid iid s ≡ false)

filter-HasNone :
    (nid iid : ℕ) (table : List Session)
    → HasNone nid iid (filter (λ s. not (has_identity nid iid s)) table)
filter-HasNone nid iid [] = tt
filter-HasNone nid iid (s ∷ table) = elim (Bool-cases (has_identity nid iid s)) [
  | inl own ↦ rw own (filter-HasNone nid iid table)
  | inr foreign ↦ rw foreign (foreign, filter-HasNone nid iid table)
]

count_none :
    (nid iid : ℕ) (table : List Session)
    → HasNone nid iid table
    → count (has_identity nid iid) table ≡ 0
count_none nid iid [] h = refl
count_none nid iid (s ∷ table) (h, hs) = rw h (count_none nid iid table hs)

-- After the hook has passed, the identity has no session of the network. For an identity that had
-- none before, as at its first login, the hook fails with the error for a missing row, even though
-- the database works.
pub execute_session_destroyer_lem :
    (nid : ℕ) (s : Session) (i : Identity) (table : List Session)
    → s.identity ≡ some i
    → ((table' : List Session)
        → execute_session_destroyer none nid s table ≡ ok table'
        → HasNone nid i.id table')
      × (HasNone nid i.id table → execute_session_destroyer none nid s table ≡ err no_rows)
unfolding execute_session_destroyer delete_sessions_by_identity delete_where
execute_session_destroyer_lem nid s i table known = (
  λ table' passed. elim (Bool-cases (count (has_identity nid i.id) table == 0)) [
    | inl nothing ↦ absurd (err-ne-ok (rw (execute_session_destroyer, known, nothing) at passed))
    | inr hit ↦
        rw (← ok-injective (rw (execute_session_destroyer, known, hit) at passed))
          (filter-HasNone nid i.id table)
  ],
  λ h. rw (execute_session_destroyer, known, count_none nid i.id table h) refl,
)
