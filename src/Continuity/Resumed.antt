-- ===== src/Continuity/Resumed.antt =====
-- What a flow that is continued continues.
use kratos.Base.Find.{find_fits, filter, find}
use kratos.Base.{Result-cases, is_no_rows, false, sym, ◌==◌, ◌∷◌, ◌⊎◌, ◌∙◌, ◌≡◌, ◌≤◌, ltb, nat_eq}
use kratos.Base.{Option-cases, Bool-cases, ok-injective, err-ne-ok, >>=-eq-ok, ok, Err, arith, []}
use kratos.Base.{List, some, none, Option, not, Bool, inr, inl, ap, refl, String, ℕ}
use mathlib.Core.Path.{subst}
use kratos.Continuity.{ManagerOptions, Env, State, ManagerOption, new_manager_options, container}
use kratos.Continuity.{admitted, decoded, removed, sid, continue}
use kratos.Continuity.Cookie.{unset_key, get_string}
use kratos.Continuity.Table.{Container, is_row, get, delete, is_valid_for, deref_uuid}

find_after_filter {ℓ} :
    {A : Type ℓ} (p : A → Bool) (xs : List A) → find p (filter (λ x. not (p x)) xs) ≡ none
find_after_filter p [] = refl
find_after_filter p (x ∷ xs) = ground (arith, find_after_filter p xs)

get_found :
    (fault : Option Err) (nid id : ℕ) (table : List Container) (c : Container)
    → get fault nid id table ≡ ok c
    → find (is_row nid id) table ≡ some c
unfolding get
get_found (some e) nid id table c h = absurd (err-ne-ok h)
get_found none nid id table c h = elim (Option-cases (find (is_row nid id) table)) [
  | inl missing ↦ absurd (err-ne-ok (rw (get, missing) at h))
  | inr (c', found) ↦ found ∙ ap some (ok-injective (rw (get, found) at h))
]

-- Whose container it is: asked for nobody, or for its owner.
abbrev pub IsFor : (identity : ℕ) → Container → Type 0
IsFor identity c = (identity ≡ 0) ⊎ (deref_uuid c.identity_id ≡ identity)

valid-IsFor :
    (now identity : ℕ) (c : Container) (u : Unit {0})
    → is_valid_for now identity c ≡ ok u
    → (now ≤ c.expires_at) × IsFor identity c
unfolding is_valid_for
valid-IsFor now identity c u h = elim (Bool-cases (ltb c.expires_at now)) [
  | inl late ↦ absurd (err-ne-ok (rw (is_valid_for, late) at h))
  | inr in_time ↦ elim (Bool-cases (identity == 0)) [
    | inl nobody ↦ (ground (arith, in_time), inl ((nat_eq.beq_iff identity 0).0 nobody))
    | inr somebody ↦ elim (Bool-cases (deref_uuid c.identity_id == identity)) [
      | inl owner ↦ (
        ground (arith, in_time),
        inr ((nat_eq.beq_iff (deref_uuid c.identity_id) identity).0 owner),
      )
      | inr stranger ↦ absurd (err-ne-ok (rw (is_valid_for, in_time, somebody, stranger) at h))
    ]
  ]
]

module _ {P B : Type 0} (E : Env P B) where
  admitted_lem :
      (now : ℕ) (opts : List (ManagerOption P)) (c : Container) (payload : Option P)
      → admitted E now opts c ≡ ok payload
      → (o : ManagerOptions P) × (new_manager_options E opts ≡ ok o)
        × (now ≤ c.expires_at)
        × (IsFor o.iid c)
        × (decoded E o.payload_raw c.payload ≡ ok payload)
  unfolding admitted
  admitted_lem now opts c payload h =
      let (o, options, rest) = >>=-eq-ok (new_manager_options E opts) _ h in
      let (u, valid, same) = >>=-eq-ok (is_valid_for now o.iid c) _ rest in
      let (in_time, owned) = valid-IsFor now o.iid c u valid in (o, options, in_time, owned, same)

  removed_lem :
      (id : ℕ) (table table' : List Container)
      → ((e : Err) → E.delete_fault ≡ some e → is_no_rows e ≡ false)
      → removed E id table ≡ ok table'
      → find (is_row E.nid id) table' ≡ none
  unfolding removed delete
  removed_lem id table table' reported h = elim (Option-cases E.delete_fault) [
    | inr (e, bad) ↦ absurd (err-ne-ok (rw (removed, bad, reported e bad) at h))
    | inl fine ↦ elim (Option-cases (find (is_row E.nid id) table)) [
      | inl missing ↦ rw (← ok-injective (rw (removed, delete, fine, missing) at h)) missing
      | inr (c, found) ↦
          rw (← ok-injective (rw (removed, delete, fine, found) at h))
            (find_after_filter (is_row E.nid id) table)
    ]
  ]

  row_id :
      (id : ℕ) (table : List Container) (c : Container)
      → find (is_row E.nid id) table ≡ some c
      → c.id ≡ id
  row_id id table c found =
      ground (arith, find_fits (is_row E.nid id) table {a = c} found, nat_eq.beq_iff c.id id)

  sid_found :
      (s : State B) (name : String) (id : ℕ)
      → (sid E s name).1 ≡ ok id
      → (text : String) × (get_string E.store s.browser name ≡ ok text) × (E.parse_uuid text ≡ id)
  unfolding sid
  sid_found s name id h = elim (Result-cases (get_string E.store s.browser name)) [
    | inr (e, bad) ↦ absurd (err-ne-ok (rw (sid, bad) at h))
    | inl (text, good) ↦ elim (Bool-cases (E.parse_uuid text == 0)) [
      | inl no_uuid ↦ absurd (err-ne-ok (rw (sid, good, no_uuid) at h))
      | inr uuid ↦ (text, good, ok-injective (rw (sid, good, uuid) at h))
    ]
  ]

  -- The cookie names the row.
  abbrev pub IsNamedBy : String → State B → Container → Type 0
  IsNamedBy name s c =
      (text : String) × (get_string E.store s.browser name ≡ ok text) × (E.parse_uuid text ≡ c.id)

  container_lem :
      (s : State B) (name : String) (c : Container)
      → (container E s name).1 ≡ ok c
      → (find (is_row E.nid c.id) s.table ≡ some c) × IsNamedBy name s c
  unfolding container
  container_lem s name c h = elim (Result-cases (sid E s name).1) [
    | inr (e, bad) ↦ absurd (err-ne-ok (rw (container, bad) at h))
    | inl (id, named) ↦ elim (Result-cases (get E.get_fault E.nid id s.table)) [
      | inr (e, missing) ↦ absurd (err-ne-ok (rw (container, named, missing) at h))
      | inl (c', got) ↦
          let found =
            get_found E.get_fault E.nid id s.table c
              (got ∙ ap ok (ok-injective (rw (container, named, got) at h))) in
          let same = row_id id s.table c found in
          let (text, cookie, parsed) = sid_found s name id named in
          (
            subst (λ x. find (is_row E.nid x) s.table ≡ some c) (sym same) found,
            (text, cookie, parsed ∙ sym same),
          )
    ]
  ]

  -- A flow is continued only with the container that the cookie names, which is in the table, in
  -- this network, has not expired, and belongs to the identity that was asked for if one was. The
  -- payload is what is decoded from that container, and the container is gone afterwards. It is
  -- assumed that no deletion fails with the error for a missing row.
  pub continue_lem :
      ((e : Err) → E.delete_fault ≡ some e → is_no_rows e ≡ false)
      → (now : ℕ) (s : State B) (name : String) (opts : List (ManagerOption P)) (c : Container)
        (payload : Option P)
      → (continue E now s name opts).1 ≡ ok (c, payload)
      → (o : ManagerOptions P) × (new_manager_options E opts ≡ ok o)
        × (find (is_row E.nid c.id) s.table ≡ some c)
        × (IsNamedBy name s c)
        × (now ≤ c.expires_at)
        × (IsFor o.iid c)
        × (decoded E o.payload_raw c.payload ≡ ok payload)
        × (find (is_row E.nid c.id) (continue E now s name opts).0.table ≡ none)
  unfolding continue
  continue_lem reported now s name opts c payload h = elim (Result-cases (container E s name).1) [
    | inr (e, bad) ↦ absurd (err-ne-ok (rw (continue, bad) at h))
    | inl (c', stored) ↦ elim (Result-cases (admitted E now opts c')) [
      | inr (e, bad) ↦ absurd (err-ne-ok (rw (continue, stored, bad) at h))
      | inl (payload', passes) ↦ elim (Result-cases (unset_key E.store s.browser name)) [
        | inr (e, bad) ↦ absurd (err-ne-ok (rw (continue, stored, passes, bad) at h))
        | inl (browser, cleared) ↦ elim (Result-cases (removed E c'.id s.table)) [
          | inr (e, bad) ↦ absurd (err-ne-ok (rw (continue, stored, passes, cleared, bad) at h))
          | inl (table, gone) ↦
              let same = ok-injective (rw (continue, stored, passes, cleared, gone) at h) in
              let same_c : c' ≡ c = ap (λ p. p.0) same in
              let (found, named) = container_lem s name c (stored ∙ ap ok same_c) in
              let (o, options, in_time, owned, payload_of) = admitted_lem now opts c payload (
                subst (λ x. admitted E now opts x ≡ ok payload) same_c
                  (passes ∙ ap (λ p. ok p.1) same)) in
              (
                o,
                options,
                found,
                named,
                in_time,
                owned,
                payload_of,
                rw (continue, stored, passes, cleared, gone)
                    (subst (λ x. find (is_row E.nid x.id) table ≡ none) same_c
                      (removed_lem c'.id s.table table reported gone)),
              )
        ]
      ]
    ]
  ]
