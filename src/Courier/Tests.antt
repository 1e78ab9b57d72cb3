-- ===== src/Courier/Tests.antt =====
-- The round of the courier at a concrete queue.
use kratos.Base.{if◌then◌else◌, ◌==◌, string_eq}
use kratos.Base.{◌≡◌, refl, none, some, [], ◌∷◌, ok, err, other}
use kratos.Courier.{
  Message, queued, sent, email, mark_processing, next_batch, next_messages, set_message_status,
}
use kratos.Courier.{by_created_at, insert_by_created_at}
use kratos.Courier.Dispatch.{
  Env, dispatch_message, dispatch_all, dispatch_queue, reset, set_status, mail_of,
}
use kratos.Courier.Delivered.{IsHonest, handed}
use kratos.Base.{◌⊎◌, All}
use kratos.Courier.Settled.{dispatch_queue_settles}
use kratos.Courier.Pending.{IsIdle}

abbrev welcome : Message
welcome = record {
  id = 1;
  nid = 3;
  status = queued;
  type = email;
  recipient = "ada@ory.sh";
  body = "Hi";
  subject = "Welcome";
  template_type = "stub";
  template_data = "{}";
  created_at = 20;
}

abbrev reminder : Message
reminder = record welcome { id = 2; recipient = "bob@ory.sh"; created_at = 10 }

-- A mail server that refuses Ada's mail.
abbrev picky : Env
picky = record {
  nid = 3;
  smtp_host = "localhost";
  smtp_from = "no-reply@ory.sh";
  smtp_from_name = "";
  smtp_headers = [];
  Template = Unit;
  template = λ m. ok tt;
  html_body = λ t. ok "<p>Hi</p>";
  dial_and_send = λ m. if m.to == "ada@ory.sh" then some (other "refused") else none;
  query_fault = none;
  update_fault = none;
  status_fault = λ id s. none;
}

-- The older message is sent, the newer one is queued again, and the error is returned.
one_refused : dispatch_queue picky (welcome ∷ reminder ∷ []) ≡ record {
  table = welcome ∷ record reminder { status = sent } ∷ [];
  result = err (other "refused");
}
unfolding dispatch_queue next_messages next_batch by_created_at insert_by_created_at mark_processing
    dispatch_all dispatch_message reset set_status set_message_status mail_of
one_refused = refl

dispatch_queue_settles_example :
    let table = (dispatch_queue picky (welcome ∷ reminder ∷ [])).table in
    IsIdle table
    × All (IsHonest picky (welcome ∷ reminder ∷ []) (handed picky (welcome ∷ reminder ∷ []))) table
    × All (λ row. (row.status ≡ sent) ⊎ (row.status ≡ queued)) table
dispatch_queue_settles_example =
    dispatch_queue_settles picky (λ id s. refl) (welcome ∷ reminder ∷ []) (refl, (refl, tt))
