-- ===== src/Continuity/Once.antt =====
-- A flow that was paused can be continued, and only once.
use kratos.Base.Find.{find-append, filter, find}
use kratos.Base.{if◌then◌else◌, ◌≤◌, ◌/◌, ◌*◌, ◌+◌, arith, sym, nat_eq, ◌==◌, ◌++◌, ◌∷◌}
use kratos.Base.{not_resumable, [], List, Option, not, ℕ, string_eq, ◌≡◌, err, ok, some, none}
use kratos.Base.{false, true, refl, String}
use mathlib.Core.Path.{subst}
use kratos.Base.Dict.{insert, lookup, erase, lookup-insert, lookup-erase}
use kratos.Continuity.{apply_options, apply_option, ManagerOptions, Env, State, ManagerOption}
use kratos.Continuity.{with_payload, with_identity, with_lifespan, new_manager_options}
use kratos.Continuity.{new_container, pause, container, admitted, decoded, removed, sid, continue}
use kratos.Continuity.{second}
use kratos.Continuity.Cookie.{Values, text, persist_values, get_string}
use kratos.Continuity.Table.{deref_uuid, Container, is_row, save, get, delete, is_valid_for}
use kratos.Continuity.Cookie.Kept.{IsStore, get_string-present, get_string-absent, unset_key_lem}

module _ {P B : Type 0} (E : Env P B) (L : IsStore E.store) (no_save_fault : E.save_fault ≡ none)
    (no_get_fault : E.get_fault ≡ none) (no_delete_fault : E.delete_fault ≡ none) where
  paused :
      (id now : ℕ) (s : State B) (name : String) (opts : List (ManagerOption P))
      (o : ManagerOptions P)
      → (name == "") ≡ false
      → new_manager_options E opts ≡ ok o
      → pause E id now s name opts ≡ (
        record {
          browser = L.next s.browser (insert name (text (E.show_uuid id)) (E.store.get s.browser));
          table = s.table ++ record (new_container E id now name o) { nid = E.nid } ∷ [];
        },
        ok tt,
      )
  unfolding pause persist_values save
  paused id now s name opts o named options =
      rw (pause, named, options, persist_values, L.saves s.browser _, save, no_save_fault) refl

  -- The container that a text in the cookie names.
  contained :
      (s : State B) (name t : String) (c : Container)
      → get_string E.store s.browser name ≡ ok t
      → (E.parse_uuid t == 0) ≡ false
      → E.parse_uuid t ≡ c.id
      → find (is_row E.nid c.id) s.table ≡ some c
      → container E s name ≡ (s, ok c)
  unfolding container sid get
  contained s name t c cookie uuid same found =
      rw
        (
          container,
          sid,
          cookie,
          uuid,
          get,
          no_get_fault,
          subst (λ id. find (is_row E.nid id) s.table ≡ some c) (sym same) found,
        )
        refl

  removed_row :
      (table : List Container) (c : Container)
      → find (is_row E.nid c.id) table ≡ some c
      → removed E c.id table ≡ ok (filter (λ x. not (is_row E.nid c.id x)) table)
  unfolding removed delete
  removed_row table c found = rw (removed, delete, no_delete_fault, found) refl

  -- What a browser holds after `vs` was saved, and the row that its value names.
  continued :
      (b : B) (vs : Values) (table : List Container) (now : ℕ) (name s : String)
      (opts : List (ManagerOption P)) (c : Container) (payload : Option P)
      → lookup name vs ≡ some (text s)
      → (E.parse_uuid s == 0) ≡ false
      → E.parse_uuid s ≡ c.id
      → find (is_row E.nid c.id) table ≡ some c
      → admitted E now opts c ≡ ok payload
      → continue E now (record { browser = L.next b vs; table = table }) name opts ≡ (
        record {
          browser = L.next (L.next b vs) (erase name vs);
          table = filter (λ x. not (is_row E.nid c.id x)) table;
        },
        ok (c, payload),
      )
  unfolding continue
  continued b vs table now name s opts c payload named uuid same found passes =
      rw
        (
          continue,
          contained (record { browser = L.next b vs; table = table }) name s c
              (get_string-present E.store L b vs name s named) uuid same found,
          passes,
          unset_key_lem E.store L b vs name,
          removed_row table c found,
        )
        refl

  continued_not :
      (b : B) (vs : Values) (table : List Container) (now : ℕ) (name : String)
      (opts : List (ManagerOption P))
      → lookup name vs ≡ none
      → (continue E now (record { browser = L.next b vs; table = table }) name opts).1
        ≡ err not_resumable
  unfolding continue container sid
  continued_not b vs table now name opts gone =
      let (e, missed) = get_string-absent E.store L b vs name gone in
      rw (continue, container, sid, missed) refl

  valid_then :
      (later i : ℕ) (c : Container)
      → later ≤ c.expires_at
      → deref_uuid c.identity_id ≡ i
      → is_valid_for later i c ≡ ok tt
  unfolding is_valid_for
  valid_then later i c in_time owner =
      ground (arith, in_time, owner, nat_eq.beq_iff (deref_uuid c.identity_id) i)

  owner : (i : ℕ) → deref_uuid (if i == 0 then none else some i) ≡ i
  owner i = ground (arith, nat_eq.beq_iff i 0)

  options_lem :
      (p : P) (t : String) (more : List (ManagerOption P))
      → E.encode p ≡ some t
      → new_manager_options E (with_payload p ∷ more)
        ≡ apply_options E more (record {
          iid = 0;
          ttl = 60 * second;
          payload = some t;
          payload_raw = some p;
          clean_up = true;
        })
  unfolding new_manager_options
  options_lem p t more encoded = rw (new_manager_options, apply_options, apply_option, encoded) refl

  admitted_again :
      (later i : ℕ) (c : Container) (p q : P) (text_p text_q : String)
      → E.encode q ≡ some text_q
      → E.decode text_p ≡ some p
      → c.payload ≡ some text_p
      → later ≤ c.expires_at
      → deref_uuid c.identity_id ≡ i
      → admitted E later (with_payload q ∷ with_identity (some i) ∷ []) c ≡ ok (some p)
  unfolding admitted
  admitted_again later i c p q text_p text_q encoded back stored in_time owned =
      let valid = valid_then later i c in_time owned in
      rw (admitted, options_lem q text_q (with_identity (some i) ∷ []) encoded, valid)
        (subst (λ x. decoded E (some q) x ≡ ok (some p)) (sym stored) (rw (decoded, back) refl))

  -- A flow that is paused with a payload for an identity is continued, by the same browser, with the
  -- same name and for the same identity, until its lifespan, cut to a whole second, has passed: the
  -- payload comes back as it was. Any attempt to continue it once more is refused. It is assumed that
  -- no statement of the database fails, that JSON and uuids are read back as they were written, that
  -- the cookie store finds what it saved, and that the uuid that was drawn is new.
  pub continue-pause :
      (id now later again i ttl : ℕ) (s : State B) (name : String) (p q : P)
      (text_p text_q : String) (others : List (ManagerOption P))
      → (name == "") ≡ false
      → E.encode p ≡ some text_p
      → E.encode q ≡ some text_q
      → E.decode text_p ≡ some p
      → E.parse_uuid (E.show_uuid id) ≡ id
      → (id == 0) ≡ false
      → find (is_row E.nid id) s.table ≡ none
      → later ≤ (now + ttl) / second * second
      → let paused_state =
          pause E id now s name
            (with_payload p ∷ with_identity (some i) ∷ with_lifespan ttl ∷ []) in
        let resumed =
          continue E later paused_state.0 name (with_payload q ∷ with_identity (some i) ∷ []) in
        (paused_state.1 ≡ ok tt)
        × ((c : Container) × (resumed.1 ≡ ok (c, some p)))
        × ((continue E again resumed.0 name others).1 ≡ err not_resumable)
  unfolding new_container
  continue-pause id now later again i ttl s name p q text_p text_q others named enc_p enc_q back
        uuid is_id fresh in_time =
      let o : ManagerOptions P = record {
        iid = i;
        ttl = ttl;
        payload = some text_p;
        payload_raw = some p;
        clean_up = true;
      } in
      let c = record (new_container E id now name o) { nid = E.nid } in
      let vs = insert name (text (E.show_uuid id)) (E.store.get s.browser) in
      let same : (name == name) ≡ true = (string_eq.beq_iff name name).1 refl in
      let stored =
        paused id now s name (with_payload p ∷ with_identity (some i) ∷ with_lifespan ttl ∷ []) o
          named (options_lem p text_p _ enc_p) in
      let found : find (is_row E.nid id) (s.table ++ c ∷ []) ≡ some c =
        find-append (is_row E.nid id) s.table c fresh (ground (arith, nat_eq.beq_iff id id)) in
      let passes = admitted_again later i c p q text_p text_q enc_q back refl in_time (owner i) in
      let resumed =
        continued s.browser vs (s.table ++ c ∷ []) later name (E.show_uuid id)
          (with_payload q ∷ with_identity (some i) ∷ []) c (some p)
          (rw (lookup-insert name name (text (E.show_uuid id)) (E.store.get s.browser), same) refl)
          (subst (λ x. (x == 0) ≡ false) (sym uuid) is_id) uuid found passes in
      rw (stored, resumed)
        (
          refl,
          (c, refl),
          continued_not (L.next s.browser vs) (erase name vs) _ again name others
              (rw (lookup-erase name name vs, same) refl),
        )
