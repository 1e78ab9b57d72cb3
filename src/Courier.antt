-- ===== src/Courier.antt =====
-- courier/courier.go, courier/message.go and persistence/sql/persister_courier.go: the queue of
-- messages and their delivery.
--
-- The messages table is a list. An operation on it takes what the database answers to its
-- statements: `none`, or the error that ends the operation. Logging is left out.
pub mod Delivered
pub mod Dispatch
pub mod Pending
pub mod Settled
mod Tests
use kratos.Base.{ℕ, suc, ◌≡◌, String, Bool, true, false, not, ◌&&◌, Option, none, some}
use kratos.Base.{map, List, [], ◌∷◌, ◌++◌, take, leb, if◌then◌else◌, ◌==◌, nat_eq, string_eq}
use kratos.Base.{Result, ok, err, Err, ◌>>=◌, ◌>>◌, check, no_rows, queue_empty}
use kratos.Base.Find.{find, filter, update_where, count}

pub data MessageStatus : Type 0 where
  queued sent processing : MessageStatus

-- A type other than MessageTypeEmail is a number that the switch does not know.
pub data MessageType : Type 0 where
  email : MessageType
  unknown_type : ℕ → MessageType

pub record Message : Type 0 where
  pub id : ℕ
  pub nid : ℕ
  pub status : MessageStatus
  pub type : MessageType
  pub recipient : String
  pub body : String
  pub subject : String
  pub template_type : String
  pub template_data : String
  pub created_at : ℕ

abbrev pub is_queued : MessageStatus → Bool
is_queued queued = true
is_queued sent = false
is_queued processing = false

abbrev pub has_id : (nid id : ℕ) → Message → Bool
has_id nid id m = m.id == id && m.nid == nid

abbrev pub with_status : MessageStatus → Message → Message
with_status s m = record m { status = s }

-- `id` and `now` are what the database layer fills in.
unfoldable pub add_message :
    Option Err → (nid id now : ℕ) → Message → List Message → Result (List Message)
add_message fault nid id now m table = do
  check fault
  ok (table ++ record m { id = id; nid = nid; status = queued; created_at = now } ∷ [])

-- ORDER BY created_at ASC
unfoldable pub insert_by_created_at : Message → List Message → List Message
insert_by_created_at m [] = m ∷ []
insert_by_created_at m (x ∷ xs) =
    let rest = insert_by_created_at m xs in
    if leb m.created_at x.created_at then m ∷ x ∷ xs else x ∷ rest

unfoldable pub by_created_at : List Message → List Message
unfolding insert_by_created_at
by_created_at [] = []
by_created_at (m ∷ ms) = insert_by_created_at m (by_created_at ms)

abbrev pub is_next : ℕ → Message → Bool
is_next nid m = m.nid == nid && is_queued m.status

unfoldable pub mark_processing : List Message → List Message → List Message
mark_processing [] table = table
mark_processing (m ∷ ms) table =
    mark_processing ms (update_where (has_id m.nid m.id) (with_status processing) table)

unfoldable pub next_batch : (nid limit : ℕ) → List Message → List Message
next_batch nid limit table = take limit (by_created_at (filter (is_next nid) table))

-- The messages as they are handed out, and the table. `update_fault` is the answer to the updates:
-- a failed one rolls the transaction back.
abbrev pub hand_out :
    Option Err → List Message → List Message → Result (List Message × List Message)
hand_out update_fault [] table = err queue_empty
hand_out update_fault (m ∷ ms) table = do
  check update_fault
  ok (map (with_status processing) (m ∷ ms), mark_processing (m ∷ ms) table)

unfoldable pub next_messages :
    (query_fault update_fault : Option Err)
    → (nid limit : ℕ) → List Message
    → Result (List Message × List Message)
next_messages query_fault update_fault nid limit table = do
  check query_fault
  hand_out update_fault (next_batch nid limit table) table

-- ORDER BY created_at DESC, the first row.
last_of : Option Message → List Message → Option Message
last_of best [] = best
last_of best (m ∷ ms) = last_of (some m) ms

unfoldable pub latest_queued_message : Option Err → ℕ → List Message → Result Message
unfolding last_of
latest_queued_message fault nid table = do
  check fault
  elim (last_of none (by_created_at (filter (is_next nid) table))) [
    | none ↦ err queue_empty
    | some m ↦ ok m
  ]

unfoldable pub set_message_status :
    Option Err → (nid id : ℕ) → MessageStatus → List Message → Result (List Message)
set_message_status fault nid id s table = do
  check fault
  if count (has_id nid id) table == 0
      then err no_rows
      else ok (update_where (has_id nid id) (with_status s) table)
