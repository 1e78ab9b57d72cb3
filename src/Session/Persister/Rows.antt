-- ===== src/Session/Persister/Rows.antt =====
-- The row of an id, in tables where an id, the primary key, is the key of one row at most.
use kratos.Base.Find.{find_fits, map_option, update_if, count, update_where, filter, find}
use kratos.Base.{◌∙◌, false, sym, if◌then◌else◌, ◌==◌, ◌++◌, ◌∷◌, ◌≡◌, nat_eq, Bool-cases, arith}
use kratos.Base.{[], List, some, none, Option, not, true, Bool, inr, inl, refl, ℕ}
use mathlib.Core.Path.{subst}
use kratos.Session.{Session}

abbrev pub is_key : ℕ → Session → Bool
is_key id s = s.id == id

abbrev pub read : List Session → ℕ → Option Session
read table id = find (is_key id) table

abbrev pub HasUniqueIds : List Session → Type 0
HasUniqueIds [] = Unit
HasUniqueIds (s ∷ table) = (read table s.id ≡ none) × HasUniqueIds table

none-ne-some : {a : Session} → none ≡ some a → ⊥
none-ne-some h = cc

abbrev pub drop_if : (Session → Bool) → Option Session → Option Session
drop_if p none = none
drop_if p (some s) = if p s then none else some s

still_absent :
    (p : Session → Bool) (id : ℕ) (table : List Session)
    → read table id ≡ none
    → read (filter p table) id ≡ none
still_absent p id [] h = refl
still_absent p id (s ∷ table) h = ground (arith, still_absent p id table)

same_key :
    (p : Session → Bool) (id : ℕ) (s : Session) (table : List Session)
    → read table s.id ≡ none
    → is_key id s ≡ true
    → read (filter p table) id ≡ none
same_key p id s table fresh same =
    subst (λ k. read (filter p table) k ≡ none) ((nat_eq.beq_iff s.id id).0 same)
      (still_absent p s.id table fresh)

pub read-filter :
    (p : Session → Bool) (id : ℕ) (table : List Session)
    → HasUniqueIds table
    → read (filter (λ s. not (p s)) table) id ≡ drop_if p (read table id)
read-filter p id [] u = refl
read-filter p id (s ∷ table) (fresh, u) =
    ground (arith, read-filter p id table u, same_key (λ s. not (p s)) id s table fresh)

pub filter-HasUniqueIds :
    (p : Session → Bool) (table : List Session) → HasUniqueIds table → HasUniqueIds (filter p table)
filter-HasUniqueIds p [] u = tt
filter-HasUniqueIds p (s ∷ table) (fresh, u) = elim (Bool-cases (p s)) [
  | inl kept ↦ rw kept (still_absent p s.id table fresh, filter-HasUniqueIds p table u)
  | inr dropped ↦ rw dropped (filter-HasUniqueIds p table u)
]

pub absent_after :
    (p : Session → Bool) (g : Session → Session) (id : ℕ) (table : List Session)
    → ((s : Session) → p s ≡ true → (g s).id ≡ s.id)
    → read table id ≡ none
    → read (update_where p g table) id ≡ none
absent_after p g id [] same h = refl
absent_after p g id (s ∷ table) same h = ground (arith, same s, absent_after p g id table same)

pub update_where-HasUniqueIds :
    (p : Session → Bool) (g : Session → Session) (table : List Session)
    → ((s : Session) → p s ≡ true → (g s).id ≡ s.id)
    → HasUniqueIds table
    → HasUniqueIds (update_where p g table)
update_where-HasUniqueIds p g [] same u = tt
update_where-HasUniqueIds p g (s ∷ table) same (fresh, u) =
    let rest = update_where-HasUniqueIds p g table same u in
    let absent = absent_after p g s.id table same fresh in
    elim (Bool-cases (p s)) [
      | inl hit ↦ rw hit (rw (same s hit) absent, rest)
      | inr miss ↦ rw miss (absent, rest)
    ]

pub read-update_where :
    (p : Session → Bool) (g : Session → Session) (id : ℕ) (table : List Session)
    → ((s : Session) → p s ≡ true → (g s).id ≡ s.id)
    → read (update_where p g table) id ≡ map_option (update_if p g) (read table id)
read-update_where p g id [] same = refl
read-update_where p g id (s ∷ table) same =
    ground (arith, same s, read-update_where p g id table same)

-- A statement that affects no row changes nothing.
pub filter_of_count :
    (p : Session → Bool) (table : List Session)
    → count p table ≡ 0
    → filter (λ s. not (p s)) table ≡ table
filter_of_count p [] h = refl
filter_of_count p (s ∷ table) h = ground (arith, filter_of_count p table)

pub update_of_count :
    (p : Session → Bool) (g : Session → Session) (table : List Session)
    → count p table ≡ 0
    → update_where p g table ≡ table
update_of_count p g [] h = refl
update_of_count p g (s ∷ table) h = ground (arith, update_of_count p g table)

pub read-append :
    (row : Session) (id : ℕ) (table : List Session)
    → read table row.id ≡ none
    → read (table ++ row ∷ []) id ≡ (if id == row.id then some row else read table id)
read-append row id [] h = ground (arith, nat_eq.beq_iff id row.id)
read-append row id (s ∷ table) h =
    ground (arith, nat_eq.beq_iff id row.id, nat_eq.beq_iff s.id row.id, read-append row id table)

not_first :
    (id : ℕ) (s : Session) (table : List Session)
    → read (s ∷ table) id ≡ none
    → ((s.id == id) ≡ false) × (read table id ≡ none)
not_first id s table h = elim (Bool-cases (s.id == id)) [
  | inl same ↦ absurd (none-ne-some (sym (rw same at h)))
  | inr differ ↦ (differ, rw differ at h)
]

pub append-HasUniqueIds :
    (row : Session) (table : List Session)
    → read table row.id ≡ none
    → HasUniqueIds table
    → HasUniqueIds (table ++ row ∷ [])
append-HasUniqueIds row [] h u = (refl, tt)
append-HasUniqueIds row (s ∷ table) h (fresh, u) =
    let (differ, absent) = not_first row.id s table h in
    (rw (read-append row s.id table absent, differ) fresh, append-HasUniqueIds row table absent u)

replaced_at :
    (row : Session) (id : ℕ) (found : Option Session)
    → ((s : Session) → found ≡ some s → is_key id s ≡ true)
    → ((id == row.id) ≡ true → (old : Session) × (found ≡ some old))
    → map_option (update_if (is_key row.id) (λ _. row)) found
      ≡ (if id == row.id then some row else found)
replaced_at row id none key present = elim (Bool-cases (id == row.id)) [
  | inl same ↦ absurd (none-ne-some (present same).1)
  | inr differ ↦ rw differ refl
]
replaced_at row id (some s) key present = ground (
  arith,
  key s refl,
  nat_eq.beq_iff s.id id,
  nat_eq.beq_iff s.id row.id,
  nat_eq.beq_iff id row.id,
)

pub read-replace :
    (row : Session) (id : ℕ) (table : List Session) {old : Session}
    → read table row.id ≡ some old
    → read (update_where (is_key row.id) (λ _. row) table) id
      ≡ (if id == row.id then some row else read table id)
read-replace row id table {old} h =
    read-update_where (is_key row.id) (λ _. row) id table
      (λ s hit. sym ((nat_eq.beq_iff s.id row.id).0 hit))
    ∙ replaced_at row id (read table id) (λ s found. find_fits (is_key id) table found)
        (λ same.
          (old, subst (λ k. read table k ≡ some old) (sym ((nat_eq.beq_iff id row.id).0 same)) h))
