-- ===== src/Courier/Delivered.antt =====
-- What a message that a round of the courier leaves in the state "sent" has gone through.
use kratos.Base.{
  string_eq, Any, &&-parts, if◌then◌else◌, ◌==◌, ◌∷◌, ◌⊎◌, ◌≡◌, nat_eq, Option-cases, Bool-cases,
  Result-cases, Err, All, map, [], List, some, none, Option, true, Bool, inr, inl, sym, refl, ℕ,
}
use kratos.Base.Find.{count}
use kratos.Courier.{
  email, unknown_type, MessageType, Message, MessageStatus, queued, sent, processing, has_id,
  with_status, mark_processing, next_batch, hand_out, next_messages, set_message_status,
}
use kratos.Courier.Dispatch.{
  Env, set_status, mail_of, dispatch_next, dispatch_message, reset, dispatch_all, dispatch_queue,
  written,
}
use kratos.Courier.Pending.{All-update}

queued-ne-sent : queued ≡ sent → ⊥
queued-ne-sent h = cc

processing-ne-sent : processing ≡ sent → ⊥
processing-ne-sent h = cc

has_id_parts :
    (nid id : ℕ) (row : Message) → has_id nid id row ≡ true → (row.id ≡ id) × (row.nid ≡ nid)
has_id_parts nid id row h =
    let parts = &&-parts _ _ h in
    ((nat_eq.beq_iff row.id id).0 parts.0, (nat_eq.beq_iff row.nid nid).0 parts.1)

-- The row with the id of this one was in the state "sent".
abbrev pub WasSent : List Message → Message → Type 0
WasSent before row = Any (λ b. (b.id ≡ row.id) × (b.nid ≡ row.nid) × (b.status ≡ sent)) before

module _ (E : Env) where
  -- The mail server took the mail of the message, which has the id of the row.
  abbrev pub Delivers : Message → Message → Type 0
  Delivers row m = (m.id ≡ row.id) × (m.type ≡ email) × (E.dial_and_send (mail_of E m) ≡ none)

  -- A row is "sent" only if it was before the round, or if the mail of a message of the batch with
  -- its id, which the round handed out, was delivered.
  abbrev pub IsHonest : (before batch : List Message) → Message → Type 0
  IsHonest before batch row = row.status ≡ sent → WasSent before row ⊎ Any (Delivers row) batch

  module _ (before batch : List Message) where
    update-IsHonest :
        (p : Message → Bool) (s : MessageStatus)
        → ((row : Message) → p row ≡ true → s ≡ sent → Any (Delivers row) batch)
        → (row : Message) → IsHonest before batch row
        → IsHonest before batch (if p row then with_status s row else row)
    update-IsHonest p s delivered row h = elim (Bool-cases (p row)) [
      | inl fits ↦ rw fits (λ k. inr (delivered row fits k))
      | inr skips ↦ rw skips h
    ]

    set_status-IsHonest :
        (m : Message) (s : MessageStatus) (table : List Message)
        → ((row : Message) → has_id E.nid m.id row ≡ true → s ≡ sent → Any (Delivers row) batch)
        → All (IsHonest before batch) table
        → All (IsHonest before batch) (written E table (set_status E m s table)).table
    unfolding set_status set_message_status
    set_status-IsHonest m s table delivered h = elim (Option-cases (E.status_fault m.id s)) [
      | inr (e, bad) ↦ rw (set_status, set_message_status, bad) h
      | inl fine ↦ elim (Bool-cases (count (has_id E.nid m.id) table == 0)) [
        | inl missing ↦ rw (set_status, set_message_status, fine, missing) h
        | inr present ↦
            rw (set_status, set_message_status, fine, present)
              (All-update (IsHonest before batch) (IsHonest before batch) (has_id E.nid m.id)
                (with_status s) table (update-IsHonest (has_id E.nid m.id) s delivered) h)
      ]
    ]

    reset-IsHonest :
        (ms table : List Message)
        → All (IsHonest before batch) table
        → All (IsHonest before batch) (reset E ms table)
    unfolding reset
    reset-IsHonest [] table h = h
    reset-IsHonest (m ∷ ms) table h =
        reset-IsHonest ms _
          (set_status-IsHonest m queued table (λ row fits k. absurd (queued-ne-sent k)) h)

    mark_processing-IsHonest :
        (ms table : List Message)
        → All (IsHonest before batch) table
        → All (IsHonest before batch) (mark_processing ms table)
    unfolding mark_processing
    mark_processing-IsHonest [] table h = h
    mark_processing-IsHonest (m ∷ ms) table h = mark_processing-IsHonest ms _ (
        All-update (IsHonest before batch) (IsHonest before batch) (has_id m.nid m.id)
          (with_status processing) table
          (update-IsHonest (has_id m.nid m.id) processing
            (λ row fits k. absurd (processing-ne-sent k)))
          h)

    dispatch_message-IsHonest :
        (m : Message) (table : List Message)
        → ((row : Message) → Delivers row m → Any (Delivers row) batch)
        → All (IsHonest before batch) table
        → All (IsHonest before batch) (dispatch_message E m table).table
    unfolding dispatch_message
    dispatch_message-IsHonest m table sub h = go m.type refl (E.dial_and_send (mail_of E m)) refl
      where
        go :
            (t : MessageType)
            → m.type ≡ t
            → (answer : Option Err) → E.dial_and_send (mail_of E m) ≡ answer
            → All (IsHonest before batch) (dispatch_message E m table).table
        go (unknown_type k) type answer delivery = rw (type, dispatch_message) h
        go email type (some e) delivery = rw (type, delivery, dispatch_message) h
        go email type none delivery =
            rw (type, delivery, dispatch_message)
              (set_status-IsHonest m sent table
                (λ row fits k. sub row (sym (has_id_parts E.nid m.id row fits).0, type, delivery))
                h)

    dispatch_all-IsHonest :
        (ms table : List Message)
        → ((row : Message) → Any (Delivers row) ms → Any (Delivers row) batch)
        → All (IsHonest before batch) table
        → All (IsHonest before batch) (dispatch_all E ms table).table
    unfolding dispatch_all
    dispatch_all-IsHonest [] table sub h = h
    dispatch_all-IsHonest (m ∷ ms) table sub h =
        let d = dispatch_message E m table in
        let left = dispatch_message-IsHonest m table (λ row k. sub row (inl k)) h in
        elim (Result-cases d.result) [
          | inl (tt, done) ↦
              rw done (dispatch_all-IsHonest ms d.table (λ row k. sub row (inr k)) left)
          | inr (e, failed) ↦ rw failed (reset-IsHonest (m ∷ ms) d.table left)
        ]

    -- A row that is in the table before the round.
    kept-IsHonest :
        (table : List Message)
        → ((row : Message) → WasSent table row → WasSent before row)
        → All (IsHonest before batch) table
    kept-IsHonest [] sub = tt
    kept-IsHonest (row ∷ table) sub =
        (λ k. inl (sub row (inl (refl, refl, k))), kept-IsHonest table (λ x k. sub x (inr k)))

  -- The messages that a round hands out.
  abbrev pub handed : List Message → List Message
  handed table = map (with_status processing) (next_batch E.nid 10 table)

  unchanged : (table : List Message) → All (IsHonest table (handed table)) table
  unchanged table = kept-IsHonest table (handed table) table (λ row k. k)

  pub dispatch_queue-IsHonest :
      (table : List Message) → All (IsHonest table (handed table)) (dispatch_queue E table).table
  unfolding dispatch_queue next_messages
  dispatch_queue-IsHonest table = elim (Bool-cases (E.smtp_host == "")) [
    | inl unset ↦ rw (unset, dispatch_queue) (unchanged table)
    | inr set ↦ rw (set, dispatch_queue) (go E.query_fault E.update_fault)
  ]
    where
      batched :
          (update_fault : Option Err) (ms : List Message)
          → All (IsHonest table (map (with_status processing) ms)) table
          → All
              (IsHonest table (map (with_status processing) ms))
              (dispatch_next E table (hand_out update_fault ms table)).table
      batched update_fault [] h = h
      batched (some e) (m ∷ ms) h = h
      batched none (m ∷ ms) h =
          let batch = map (with_status processing) (m ∷ ms) in
          dispatch_all-IsHonest table batch batch (mark_processing (m ∷ ms) table) (λ row k. k)
            (mark_processing-IsHonest table batch (m ∷ ms) table h)

      go :
          (query_fault update_fault : Option Err)
          → All
              (IsHonest table (handed table))
              (dispatch_next E table (next_messages query_fault update_fault E.nid 10 table)).table
      go (some e) update_fault = unchanged table
      go none update_fault = batched update_fault (next_batch E.nid 10 table) (unchanged table)
