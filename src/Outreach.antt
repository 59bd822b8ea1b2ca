-- ===== src/Outreach.antt =====
-- src/outreach.rs: enquiries to suppliers, their replies, and the messages that are sent. This file has
-- the state, and the parts that the calls share. Every call that touches a thread holds the advisory
-- lock `send:{thread}`, so it is one step.
pub mod Replies
pub mod Reviews
pub mod Enquiries
pub mod Mail
pub mod Processing
pub mod Sending
pub mod Ending
pub mod Stages
pub mod Follows
pub mod Rows
pub mod Concluding
pub mod Sends
pub mod Opens
pub mod Steps
pub mod History
pub mod Senders
pub mod Refusals
mod Tests
use backhaus_ai_backend.Base.{
  ℕ, ◌+◌, Bool, true, false, not, ◌&&◌, ◌||◌, Option, none, some, List, [], ◌∷◌, ◌++◌, String,
  str_eq, ltb, ◌==◌, if◌then◌else◌, any_row, find_row, update_rows, rows_where, take,
}
use backhaus_ai_backend.Base.Maps.{insert_before}
use backhaus_ai_backend.Base.Result.{Result, ok, not_found, ok_or, ◌>>=◌}
use backhaus_ai_backend.Store.{Db}
use backhaus_ai_backend.Store.Outreach.{
  ThreadStatus, MessageStatus, superseded, Thread, Message, is_pending, is_outbound,
}
use backhaus_ai_backend.Purchasing.{is_vendor}
use backhaus_ai_backend.Settings.{SettingsRow}

-- The database with the tables that only this part and the settings use.
pub record Office : Type 0 where
  pub db : Db
  pub settings : List SettingsRow
  pub threads : List Thread
  pub messages : List Message

abbrev pub is_thread : String → ℕ → Thread → Bool
is_thread ws id t = str_eq t.workspace ws && t.id == id

abbrev pub has_key : ℕ → Thread → Bool
has_key id t = t.id == id

abbrev pub is_message : ℕ → Message → Bool
is_message id m = m.id == id

abbrev pub of_thread : ℕ → Message → Bool
of_thread thread m = m.thread_id == thread

abbrev pub attempted : Message → Bool
attempted m = elim m.first_attempt_at [ none ↦ false | some _ ↦ true ]

-- source_message_id IS NOT NULL
abbrev pub is_question : Message → Bool
is_question m = elim m.source_message_id [ none ↦ false | some _ ↦ true ]

unfoldable pub moved : ℕ → ThreadStatus → Thread → Thread
moved now status t = record t { status = status; updated_at = now }

unfoldable pub marked : ℕ → MessageStatus → Message → Message
marked now status m = record m { status = status; updated_at = now }

-- An automatic question that is not sent yet.
abbrev pub is_stale : ℕ → Message → Bool
is_stale thread m = of_thread thread m && is_question m && is_pending m.status && not (attempted m)

unfoldable pub supersede_questions : ℕ → ℕ → List Message → List Message
unfolding marked
supersede_questions now thread messages =
    update_rows (is_stale thread) (marked now superseded) messages

-- created_at DESC, with the row that is found first where two are as new
abbrev pub newer_of : Message → Option Message → Option Message
newer_of m none = some m
newer_of m (some n) = some (if ltb m.created_at n.created_at then n else m)

-- SELECT … ORDER BY created_at DESC LIMIT 1
unfoldable pub latest : (Message → Bool) → List Message → Option Message
latest p [] = none
latest p (m ∷ ms) = let rest = latest p ms in if p m then newer_of m rest else rest

-- What `detail` reads of a thread: its first hundred messages, and the addresses, which are those of the
-- vendor until a message is attempted.
pub record Detail : Type 0 where
  pub thread : Thread
  pub messages : List Message
  pub recipient_email : Option String
  pub recipient_phone : Option String

abbrev earlier : Message → Message → Bool
earlier a b = ltb a.created_at b.created_at || (a.created_at == b.created_at && ltb a.id b.id)

unfoldable pub in_order : List Message → List Message
in_order [] = []
in_order (m ∷ ms) = insert_before earlier m (in_order ms)

unfoldable pub detail : String → ℕ → Office → Result Detail
unfolding in_order
detail ws id office = do
  t ← ok_or (find_row (is_thread ws id) office.threads) not_found
  v ← ok_or (find_row (is_vendor ws t.vendor_id) office.db.vendors) not_found
  let kept = any_row (λ m. of_thread id m && attempted m) office.messages
  ok (record {
    thread = t;
    messages =
        take 100
          (in_order (rows_where (λ m. str_eq m.workspace ws && of_thread id m) office.messages));
    recipient_email = if kept then t.recipient_email else v.email;
    recipient_phone = if kept then t.recipient_phone else v.phone;
  })
