-- ===== src/Courier/Settled.antt =====
-- What a round of the courier leaves in the queue.
use kratos.Base.{◌⊎◌, ℕ, ◌≡◌, refl, false, Option, none, some}
use kratos.Base.{
  List, [], ◌∷◌, map, All, ◌==◌, nat_eq, string_eq, arith, Bool-cases, Result-cases, inl, inr,
}
use kratos.Base.{ok, Err, err-ne-ok}
use kratos.Base.Find.{count}
use kratos.Courier.{
  email, unknown_type, MessageType, Message, MessageStatus, queued, sent, processing, has_id,
  with_status, mark_processing, next_batch, hand_out, next_messages, set_message_status,
}
use kratos.Courier.Dispatch.{
  Env, set_status, mail_of, dispatch_next, dispatch_message, reset, dispatch_all, dispatch_queue,
  Dispatched, written, after,
}
use kratos.Courier.Delivered.{IsHonest, handed, dispatch_queue-IsHonest}
use kratos.Courier.Pending.{
  is_processing, Pending, IsIdle, IsIdle-Pending, Pending-IsIdle, All-update, All-skip,
  mark-Pending, InNetwork, batch-InNetwork, handed_out, among_handed_out,
}

idle_state : (s : MessageStatus) → is_processing s ≡ false → (s ≡ sent) ⊎ (s ≡ queued)
idle_state queued h = inr refl
idle_state sent h = inl refl
idle_state processing h = cc

idle_states :
    (table : List Message)
    → IsIdle table
    → All (λ row. (row.status ≡ sent) ⊎ (row.status ≡ queued)) table
idle_states [] h = tt
idle_states (row ∷ table) (h, hs) = (idle_state row.status h, idle_states table hs)

module _ (E : Env) (no_fault : (id : ℕ) (s : MessageStatus) → E.status_fault id s ≡ none) where
  settle :
      (m : Message) (ms : List Message) (s : MessageStatus) (table : List Message)
      → m.nid ≡ E.nid
      → is_processing s ≡ false
      → All (Pending (m ∷ ms)) table
      → All (Pending ms) (written E table (set_status E m s table)).table
  unfolding set_status set_message_status
  settle m ms s table in_nid settled h = elim (Bool-cases (count (has_id E.nid m.id) table == 0)) [
    | inl missing ↦
        rw (set_status, set_message_status, no_fault m.id s, missing)
          (All-skip (Pending (m ∷ ms)) (Pending ms) (has_id E.nid m.id) table
            (ground (arith, missing)) (λ row out pending. ground (arith, pending, out, in_nid)) h)
    | inr present ↦
        rw (set_status, set_message_status, no_fault m.id s, present)
          (All-update (Pending (m ∷ ms)) (Pending ms) (has_id E.nid m.id) (with_status s) table
            (λ row pending. ground (arith, pending, in_nid, settled)) h)
  ]

  reset_settles :
      (ms : List Message) (table : List Message)
      → InNetwork E.nid ms
      → All (Pending ms) table
      → All (Pending []) (reset E ms table)
  unfolding reset
  reset_settles [] table own h = h
  reset_settles (m ∷ ms) table (n, own) h =
      reset_settles ms _ own (settle m ms queued table n refl h)

  weaken :
      (m : Message) (ms table : List Message)
      → All (Pending ms) table
      → All (Pending (m ∷ ms)) table
  weaken m ms [] h = tt
  weaken m ms (row ∷ table) (h, hs) = (λ p. ground (arith, h p), weaken m ms table hs)

  -- A message is settled, or it is still to settle.
  Leaves : Message → List Message → Dispatched → Type 0
  Leaves m ms d = All (Pending (m ∷ ms)) d.table × (d.result ≡ ok tt → All (Pending ms) d.table)

  dispatch_message-Leaves :
      (m : Message) (ms : List Message) (table : List Message)
      → m.nid ≡ E.nid
      → All (Pending (m ∷ ms)) table
      → Leaves m ms (dispatch_message E m table)
  unfolding dispatch_message Leaves
  dispatch_message-Leaves m ms table n h =
      let settled = settle m ms sent table n refl h in
      go m.type refl (E.dial_and_send (mail_of E m)) refl
    where
      go :
          (t : MessageType)
          → m.type ≡ t
          → (answer : Option Err) → E.dial_and_send (mail_of E m) ≡ answer
          → Leaves m ms (dispatch_message E m table)
      go (unknown_type k) type answer delivery =
          rw (type, dispatch_message) (h, λ r. absurd (err-ne-ok r))
      go email type (some e) delivery =
          rw (type, delivery, dispatch_message) (h, λ r. absurd (err-ne-ok r))
      go email type none delivery =
          rw (type, delivery, dispatch_message)
            (weaken m ms _ (settle m ms sent table n refl h), λ r. settle m ms sent table n refl h)

  after_settles :
      (m : Message) (ms : List Message) (d : Dispatched)
      → InNetwork E.nid (m ∷ ms)
      → ((table : List Message)
          → All (Pending ms) table
          → All (Pending []) (dispatch_all E ms table).table)
      → Leaves m ms d
      → All (Pending []) (after E m ms (dispatch_all E ms) d).table
  unfolding Leaves
  after_settles m ms d own next (pending, settled) = elim (Result-cases d.result) [
    | inl (tt, done) ↦ rw done (next d.table (settled done))
    | inr (e, failed) ↦ rw failed (reset_settles (m ∷ ms) d.table own pending)
  ]

  dispatch_all_settles :
      (ms : List Message) (table : List Message)
      → InNetwork E.nid ms
      → All (Pending ms) table
      → All (Pending []) (dispatch_all E ms table).table
  unfolding dispatch_all
  dispatch_all_settles [] table own h = h
  dispatch_all_settles (m ∷ ms) table own h =
      after_settles m ms (dispatch_message E m table) own
        (λ table' k. dispatch_all_settles ms table' own.1 k)
        (dispatch_message-Leaves m ms table own.0 h)

  hand_out_settles :
      (fault : Option Err) (ms : List Message) (table : List Message)
      → InNetwork E.nid ms
      → IsIdle table
      → IsIdle (dispatch_next E table (hand_out fault ms table)).table
  hand_out_settles fault [] table own idle = idle
  hand_out_settles (some e) (m ∷ ms) table own idle = idle
  hand_out_settles none (m ∷ ms) table own idle =
      let batch = map (with_status processing) (m ∷ ms) in
      let marked =
        mark-Pending (m ∷ ms) [] table (IsIdle-Pending table idle) batch (λ row k. ground arith)
          (λ row k. among_handed_out (m ∷ ms) row k) in
      Pending-IsIdle _ (
        dispatch_all_settles batch (mark_processing (m ∷ ms) table) (handed_out E.nid (m ∷ ms) own)
          marked)

  next_settles :
      (query_fault update_fault : Option Err) (table : List Message)
      → IsIdle table
      → IsIdle (dispatch_next E table (next_messages query_fault update_fault E.nid 10 table)).table
  unfolding next_messages
  next_settles (some e) update_fault table idle = idle
  next_settles none update_fault table idle =
      hand_out_settles update_fault (next_batch E.nid 10 table) table
        (batch-InNetwork E.nid 10 table) idle

  queue_settles : (table : List Message) → IsIdle table → IsIdle (dispatch_queue E table).table
  unfolding dispatch_queue
  queue_settles table idle = elim (Bool-cases (E.smtp_host == "")) [
    | inl unset ↦ rw (unset, dispatch_queue) idle
    | inr set ↦ rw (set, dispatch_queue) (next_settles E.query_fault E.update_fault table idle)
  ]

  -- A round of the courier leaves no message in the state "processing" when it found none there and
  -- the updates of single messages do not fail in the database, whatever the mail server, the
  -- templates and the other statements answer. It leaves a message in the state "sent" only if that
  -- was sent before the round, or is an email of the batch which the mail server took. The others
  -- are queued.
  pub dispatch_queue_settles :
      (table : List Message)
      → IsIdle table
      → IsIdle (dispatch_queue E table).table
        × All (IsHonest E table (handed E table)) (dispatch_queue E table).table
        × All (λ row. (row.status ≡ sent) ⊎ (row.status ≡ queued)) (dispatch_queue E table).table
  dispatch_queue_settles table idle =
      let settled = queue_settles table idle in
      (settled, dispatch_queue-IsHonest E table, idle_states (dispatch_queue E table).table settled)
