-- ===== src/Outreach/Replies.antt =====
-- src/outreach.rs: `ingest` of a supplier's reply, `paste_reply`, and the reply that the operator drafts.
use Prim.Native.String.{◌++◌ as str_append, len}
use backhaus_ai_backend.Base.{
  ℕ, Bool, true, false, not, ◌&&◌, ◌||◌, Option, none, some, [], ◌∷◌, ◌++◌, String, str_eq, ltb,
  ◌==◌, if◌then◌else◌, any_row, find_row, update_rows,
}
use backhaus_ai_backend.Base.Json.{string, object, field, end}
use backhaus_ai_backend.Base.Result.{
  Result, ok, invalid, not_found, conflict, database, ok_or, ◌>>=◌, ◌>>◌, fail_if,
}
use backhaus_ai_backend.Base.Text.{trim, is_empty}
use backhaus_ai_backend.Store.{supplier_reply}
use backhaus_ai_backend.Store.Outreach.{
  reply_received, reply_ready, MessageStatus, received, superseded, inbound, outbound, Channel,
  email, Message, is_discarded, is_sending, is_unsent, is_outbound, is_email,
}
use backhaus_ai_backend.Jobs.{enqueue_system}
use backhaus_ai_backend.Outreach.{
  Office, detail, is_thread, has_key, is_message, of_thread, attempted, moved, marked,
  supersede_questions, latest,
}

-- provider_id=$1
abbrev pub has_provider : String → Message → Bool
has_provider provider m = elim m.provider_id [ none ↦ false | some p ↦ str_eq p provider ]

-- A message that comes in.
pub record Incoming : Type 0 where
  pub channel : Channel
  pub body : String
  pub subject : String
  pub provider : String
  pub internet : Option String

abbrev pub received_message : ℕ → ℕ → String → ℕ → Incoming → Message
received_message now id ws thread i = record {
  id = id;
  thread_id = thread;
  workspace = ws;
  direction = inbound;
  channel = i.channel;
  body = i.body;
  subject = i.subject;
  status = received;
  provider_id = some i.provider;
  internet_id = i.internet;
  reply_to_id = none;
  review = none;
  error = none;
  created_at = now;
  updated_at = now;
  sent_at = none;
  received_at = some now;
  source_message_id = none;
  review_run_id = none;
  send_payload = none;
  first_attempt_at = none;
}

-- `{"reused":true}`, or the message with the run that reviews it.
pub data Ingested : Type 0 where
  reused : Ingested
  stored : (message : ℕ) (run : Option ℕ) → Ingested

-- `show_id` prints an identifier.
module _ (show_id : ℕ → String) where
  unfoldable pub ingest : ℕ → ℕ → ℕ → String → ℕ → Incoming → Office → Result (Ingested × Office)
  unfolding supersede_questions moved
  ingest now id run_id ws thread i office = do
    t ← ok_or (find_row (is_thread ws thread) office.threads) not_found
    fail_if (is_discarded t.status) conflict
    let queued =
        enqueue_system now run_id ws supplier_reply (str_append "supplier-reply:" (show_id id))
          (object (
            field "message_id" (string (show_id id))
              (field "thread_id" (string (show_id thread)) end)))
          office.db
    ok (
        if any_row (has_provider i.provider) office.messages then (reused, office) else (
          stored id queued.0,
          record office {
            db = queued.1;
            messages =
                supersede_questions now thread
                  (office.messages ++ received_message now id ws thread i ∷ []);
            threads = update_rows (is_thread ws thread) (moved now reply_received) office.threads;
          },
        ))

  -- A reply that the operator copies in from WhatsApp.
  unfoldable pub paste_reply :
      ℕ → ℕ → ℕ → String → ℕ → String → ℕ → Office → Result (Ingested × Office)
  unfolding detail ingest
  paste_reply now id run_id ws thread body request office = do
    fail_if (is_empty (trim body) || ltb 12000 (len body)) invalid
    d ← detail ws thread office
    fail_if (is_discarded d.thread.status) conflict
    ingest now id run_id ws thread
        (record {
          channel = Channel.whatsapp;
          body = body;
          subject = d.thread.subject;
          provider = str_append "paste:" (show_id request);
          internet = none;
        })
        office

-- An outbound message that nothing has been done with.
abbrev pub outbound_message :
    ℕ → ℕ → String → ℕ → Channel → String → String → MessageStatus → Option String → Message
outbound_message now id ws thread channel body subject status reply_to = record {
  id = id;
  thread_id = thread;
  workspace = ws;
  direction = outbound;
  channel = channel;
  body = body;
  subject = subject;
  status = status;
  provider_id = none;
  internet_id = none;
  reply_to_id = reply_to;
  review = none;
  error = none;
  created_at = now;
  updated_at = now;
  sent_at = none;
  received_at = none;
  source_message_id = none;
  review_run_id = none;
  send_payload = none;
  first_attempt_at = none;
}

abbrev pub is_replaced : ℕ → Message → Bool
is_replaced thread m =
    of_thread thread m && is_outbound m.direction && is_unsent m.status && not (attempted m)

abbrev pub internet_of : Option Message → Option String
internet_of none = none
internet_of (some m) = m.internet_id

-- Whether the draft was there already.
unfoldable pub draft_reply : ℕ → String → ℕ → String → ℕ → Office → Result (Bool × Office)
unfolding marked latest moved
draft_reply now ws thread body request office = do
  fail_if (is_empty (trim body) || ltb 5000 (len body)) invalid
  t ← ok_or (find_row (is_thread ws thread) office.threads) not_found
  fail_if (is_discarded t.status) conflict
  elim (find_row (λ m. m.id == request && str_eq m.workspace ws) office.messages) [
    | some m ↦ do
      fail_if (not (m.thread_id == thread) || not (str_eq m.body (trim body))) conflict
      ok (true, office)
    | none ↦ do
      fail_if (any_row (λ m. of_thread thread m && is_sending m.status) office.messages) conflict
      fail_if (any_row (is_message request) office.messages) database
      let kept = update_rows (is_replaced thread) (marked now superseded) office.messages
      let in_reply = internet_of (
          latest (λ m. of_thread thread m && not (is_outbound m.direction) && is_email m.channel)
            kept)
      ok (
        false,
        record office {
          messages =
              kept
              ++ outbound_message now request ws thread email (trim body) t.subject
                  MessageStatus.draft in_reply
                ∷ [];
          threads = update_rows (has_key thread) (moved now reply_ready) office.threads;
        },
      )
  ]
