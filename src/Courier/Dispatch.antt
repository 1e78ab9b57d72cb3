-- ===== src/Courier/Dispatch.antt =====
-- courier/courier.go: one round of the courier over the queue.
use kratos.Base.{false, true, ℕ, String, Bool, Option, none, some}
use kratos.Base.{List, [], ◌∷◌, if◌then◌else◌, ◌==◌, nat_eq, string_eq}
use kratos.Base.{Result, ok, err, Err, smtp_unset, unexpected_type, queue_empty}
use kratos.Courier.{Message, MessageStatus, queued, sent, email, unknown_type}
use kratos.Courier.{next_messages, set_message_status}

pub record Mail : Type 0 where
  pub from : String
  pub from_name : Option String
  pub to : String
  pub subject : String
  pub headers : List (String × String)
  pub text_plain : String
  pub text_html : Option String

-- The configuration, the mail server and the database of one round. `template` is the template
-- that a message was made from, and `html_body` what it renders to.
pub record Env : Type 1 where
  pub nid : ℕ
  pub smtp_host : String
  pub smtp_from : String
  pub smtp_from_name : String
  pub smtp_headers : List (String × String)
  pub Template : Type 0
  pub template : Message → Result Template
  pub html_body : Template → Result String
  pub dial_and_send : Mail → Option Err
  pub query_fault : Option Err
  pub update_fault : Option Err
  -- the answer to the update of a message's status
  pub status_fault : ℕ → MessageStatus → Option Err

abbrev pub as_option : Result String → Option String
as_option (ok body) = some body
as_option (err e) = none

-- The table, and the returned error.
abbrev pub Dispatched : Type 0
Dispatched = record { table : List Message; result : Result (Unit {0}) }

abbrev pub is_queue_empty : Err → Bool
is_queue_empty queue_empty = true
is_queue_empty _ = false

module _ (E : Env) where
  abbrev pub body_of : Message → Option String
  body_of m = elim (E.template m) [ ok t ↦ as_option (E.html_body t) | err e ↦ none ]

  unfoldable pub mail_of : Message → Mail
  mail_of m = record {
    from = E.smtp_from;
    from_name = if E.smtp_from_name == "" then none else some E.smtp_from_name;
    to = m.recipient;
    subject = m.subject;
    headers = E.smtp_headers;
    text_plain = m.body;
    text_html = body_of m;
  }

  unfoldable pub set_status : Message → MessageStatus → List Message → Result (List Message)
  set_status m s = set_message_status (E.status_fault m.id s) E.nid m.id s

  abbrev pub written : List Message → Result (List Message) → Dispatched
  written table (ok table') = record { table = table'; result = ok tt }
  written table (err e) = record { table = table; result = err e }

  unfoldable pub dispatch_message : Message → List Message → Dispatched
  dispatch_message m table = elim m.type [
    | unknown_type n ↦ record { table = table; result = err unexpected_type }
    | email ↦ elim (E.dial_and_send (mail_of m)) [
      | some e ↦ record { table = table; result = err e }
      | none ↦ written table (set_status m sent table)
    ]
  ]

  -- A failure to reset is only logged.
  unfoldable pub reset : List Message → List Message → List Message
  reset [] table = table
  reset (m ∷ ms) table = reset ms (written table (set_status m queued table)).table

  abbrev pub after : Message → List Message → (List Message → Dispatched) → Dispatched → Dispatched
  after m ms go d = elim d.result [
    | ok tt ↦ go d.table
    | err e ↦ record { table = reset (m ∷ ms) d.table; result = err e }
  ]

  unfoldable pub dispatch_all : List Message → List Message → Dispatched
  dispatch_all [] table = record { table = table; result = ok tt }
  dispatch_all (m ∷ ms) table = after m ms (dispatch_all ms) (dispatch_message m table)

  abbrev pub dispatch_next : List Message → Result (List Message × List Message) → Dispatched
  dispatch_next table (ok (messages, table')) = dispatch_all messages table'
  dispatch_next table (err e) = record {
    table = table;
    result = if is_queue_empty e then ok tt else err e;
  }

  unfoldable pub dispatch_queue : List Message → Dispatched
  dispatch_queue table =
      if E.smtp_host == ""
      then record { table = table; result = err smtp_unset }
      else dispatch_next table (next_messages E.query_fault E.update_fault E.nid 10 table)
