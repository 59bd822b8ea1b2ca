-- ===== src/Outreach/Reviews.antt =====
-- src/outreach.rs: the `review` that an agent writes of a supplier's reply, and the question that follows it.
use Prim.Native.String.{◌++◌ as str_append, len}
use Prim.Native.Char.{code}
use backhaus_ai_backend.Base.{
  ℕ, Bool, true, false, not, ◌&&◌, ◌||◌, Option, none, some, List, [], ◌∷◌, ◌++◌, String, str_eq,
  ltb, leb, ◌==◌, if◌then◌else◌, any_row, find_row, update_rows, count_rows, map, length,
}
use backhaus_ai_backend.Base.Result.{
  Result, ok, invalid, not_found, conflict, ok_or, ◌>>=◌, ◌>>◌, fail_if,
}
use backhaus_ai_backend.Base.Text.{trim, is_empty}
use backhaus_ai_backend.Store.Outreach.{
  ThreadStatus, reply_ready, offer_ready, needs_attention, MessageStatus, review_pending, reviewed,
  Message, is_discarded, is_outbound,
}
use backhaus_ai_backend.Jobs.{Run}
use backhaus_ai_backend.Outreach.{
  Office, has_key, is_message, of_thread, is_question, moved, supersede_questions,
}
use backhaus_ai_backend.Outreach.Replies.{outbound_message}

pub record Review : Type 0 where
  pub summary : String
  pub missing_fields : List String
  pub needs_person : Bool

abbrev is_field : String → Bool
is_field s =
    str_eq s "price"
    || str_eq s "pack_size"
    || str_eq s "minimum_order"
    || str_eq s "availability"
    || str_eq s "delivery"
    || str_eq s "payment_terms"

unfoldable pub bad_review : Review → Bool
bad_review r =
    is_empty (trim r.summary)
    || ltb 1200 (len r.summary)
    || ltb 6 (length r.missing_fields)
    || any_row (λ s. not (is_field s)) r.missing_fields

-- `replace('_', " ")`
abbrev spaced : String → String
spaced String.[] = String.[]
spaced (String.◌∷◌ c s) =
    if code c == 95 then str_append " " (spaced s) else String.◌∷◌ c (spaced s)

-- `join(", ")`
abbrev joined : List String → String
joined [] = ""
joined (s ∷ ss) = elim ss [ [] ↦ s | _ ∷ _ ↦ str_append s (str_append ", " (joined ss)) ]

unfoldable pub question : List String → String
question missing = str_append "Thank you for your reply. Could you also confirm the " (
    str_append (joined (map spaced missing))
      "? Our purchasing team will review the complete quotation before making a decision. This is not an order or acceptance of terms.")

unfoldable pub question_message : ℕ → ℕ → Run → Review → Message → Message
unfolding question
question_message now id run input row =
    record (outbound_message now id run.workspace row.thread_id row.channel
      (question input.missing_fields) row.subject review_pending row.internet_id) {
        source_message_id = some row.id;
        review_run_id = some run.id;
      }

-- (created_at,id) > ($2,$3)
abbrev pub is_newer : Message → Message → Bool
is_newer row m =
    of_thread row.thread_id m
    && not (is_outbound m.direction)
    && (ltb row.created_at m.created_at || (row.created_at == m.created_at && ltb row.id m.id))

abbrev pub is_draft : MessageStatus → Bool
is_draft MessageStatus.draft = true
is_draft _ = false

abbrev pub is_operator_draft : Message → Message → Bool
is_operator_draft row m =
    of_thread row.thread_id m
    && is_outbound m.direction
    && not (is_question m)
    && is_draft m.status
    && ltb row.created_at m.created_at

abbrev pub asks_in : ℕ → Message → Bool
asks_in thread m = of_thread thread m && is_question m

abbrev pub from_source : ℕ → Message → Bool
from_source id m = elim m.source_message_id [ none ↦ false | some s ↦ s == id ]

abbrev pub is_inbound_message : String → ℕ → Message → Bool
is_inbound_message ws id m = str_eq m.workspace ws && m.id == id && not (is_outbound m.direction)

abbrev pub is_given : Option String → Bool
is_given none = false
is_given (some _) = true

-- What a review answers with.
pub data Reviewed : Type 0 where
  reviewed_before : Reviewed
  overtaken : Reviewed
  concluded : (needs_person reply_prepared offer : Bool) → Reviewed

unfoldable pub review_row : ℕ → String → Message → Message
review_row now summary m = record m { review = some summary; status = reviewed; updated_at = now }

abbrev pub next_of : Bool → Bool → ThreadStatus
next_of true _ = needs_attention
next_of false true = offer_ready
next_of false false = reply_ready

-- The statements behind the test that no newer reply has come in.
unfoldable pub conclude : ℕ → ℕ → Run → Review → Message → Office → Reviewed × Office
unfolding supersede_questions question_message moved
conclude now new_id run input row office =
    let thread = row.thread_id in
    let messages = supersede_questions now thread office.messages in
    let complete = length input.missing_fields == 0 in
    let person =
      input.needs_person
      || (not complete && leb 3 (count_rows (asks_in thread) messages))
      || any_row (is_operator_draft row) messages in
    (
      concluded person (not person && not complete) (not person && complete),
      record office {
        messages =
            if not person && not complete
            then messages ++ question_message now new_id run input row ∷ []
            else messages;
        threads = update_rows (has_key thread) (moved now (next_of person complete)) office.threads;
      },
    )

-- `message` and `thread` are the identifiers of the run's input, where they can be read.
unfoldable pub review :
    ℕ → ℕ → Run → Option ℕ → Option ℕ → Review → Office → Result (Reviewed × Office)
unfolding bad_review review_row conclude
review now new_id run message thread input office = do
  fail_if (bad_review input) invalid
  id ← ok_or message not_found
  thread_id ← ok_or thread not_found
  row ← ok_or (find_row (is_inbound_message run.workspace id) office.messages) not_found
  fail_if (not (row.thread_id == thread_id)) not_found
  t ← ok_or (find_row (has_key row.thread_id) office.threads) not_found
  fail_if (is_discarded t.status) conflict
  let written = record office {
    messages = update_rows (is_message id) (review_row now input.summary) office.messages;
  }
  ok (
      if any_row (from_source id) office.messages || is_given row.review
      then (reviewed_before, office)
      else (if any_row (is_newer row) written.messages
          then (overtaken, written)
          else conclude now new_id run input row written))
