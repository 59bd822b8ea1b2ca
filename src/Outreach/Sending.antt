-- ===== src/Outreach/Sending.antt =====
-- src/outreach.rs: `send_email`. A first transaction chooses the message and freezes what is sent, then
-- the provider is called, then its answer is written down. The provider is a parameter.
use backhaus_ai_backend.Base.{
  ℕ, ◌+◌, ◌*◌, Bool, true, false, not, ◌&&◌, ◌||◌, Option, none, some, List, String, str_eq, ltb,
  ◌==◌, if◌then◌else◌, any_row, find_row, update_rows,
}
use backhaus_ai_backend.Base.Json.{Json, string, array, nil, cons, object, Fields, field, end}
use backhaus_ai_backend.Base.Result.{
  Result, ok, invalid, not_found, conflict, unavailable, ok_or, ◌>>=◌, ◌>>◌, fail_if,
}
use backhaus_ai_backend.Base.Text.{is_empty, any_char, ends_with}
use backhaus_ai_backend.Store.{Db, RunRow, procurement, completed}
use backhaus_ai_backend.Store.Orders.{Vendor}
use backhaus_ai_backend.Store.Outreach.{
  awaiting_reply, send_failed, sending, sent, failed, Thread, Message, is_discarded, is_sending,
  is_sent, is_dropped, is_outbound, is_email,
}
use backhaus_ai_backend.Jobs.{seconds}
use backhaus_ai_backend.Settings.{SettingsRow, has_settings}
use backhaus_ai_backend.Purchasing.{is_vendor}
use backhaus_ai_backend.ScopedAgents.{is_agent}
use backhaus_ai_backend.Outreach.{
  Office, is_thread, has_key, is_message, of_thread, attempted, moved, latest,
}
use backhaus_ai_backend.Outreach.Replies.{has_provider}

-- What is posted to the provider, under the key `supplier-{message}`.
pub record Post : Type 0 where
  pub message : ℕ
  pub thread : ℕ
  pub at : ℕ
  pub payload : Json

pub data Begun : Type 0 where
  sent_already : Begun
  posts : (post : Post) → Begun

abbrev text_of : Option String → String
text_of none = ""
text_of (some s) = s

abbrev reply_address : String → List SettingsRow → String
reply_address ws rows = elim (find_row (has_settings ws) rows) [ none ↦ "" | some s ↦ s.reply_to ]

-- The thread takes the addresses of the moment, until a message of it is attempted.
unfoldable pub addressed : String → Vendor → List SettingsRow → Thread → Thread
addressed ws v settings t = record t {
  recipient_email = v.email;
  recipient_phone = v.phone;
  reply_to = reply_address ws settings;
}

unfoldable pub address : String → ℕ → Office → List Thread
unfolding addressed
address ws thread office =
    if any_row (λ m. of_thread thread m && attempted m) office.messages
    then office.threads
    else (elim (find_row (is_thread ws thread) office.threads) [
      | none ↦ office.threads
      | some t ↦ elim (find_row (is_vendor ws t.vendor_id) office.db.vendors) [
        | none ↦ office.threads
        | some v ↦ update_rows (is_thread ws thread) (addressed ws v office.settings) office.threads
      ]
    ])

abbrev pub is_wanted : Option ℕ → Message → Bool
is_wanted none m = true
is_wanted (some id) m = m.id == id

abbrev pub is_candidate : String → ℕ → Option ℕ → Message → Bool
is_candidate ws thread wanted m =
    str_eq m.workspace ws
    && of_thread thread m
    && is_outbound m.direction
    && is_email m.channel
    && is_wanted wanted m

-- The agent is on, and the review that wrote the message has completed.
abbrev pub agent_on : String → Db → Bool
agent_on ws db = elim (find_row (is_agent ws procurement) db.agents) [
  | none ↦ false
  | some a ↦ a.enabled
]

abbrev pub is_completed : ℕ → RunRow → Bool
is_completed id r = r.id == id && elim r.status [ completed ↦ true | _ ↦ false ]

unfoldable pub may_send_review : String → Option ℕ → Db → Bool
may_send_review ws none db = true
may_send_review ws (some run) db = agent_on ws db && any_row (is_completed run) db.runs

abbrev is_refused : ℕ → Bool
is_refused c = c == 13 || c == 10 || c == 60 || c == 62

-- `lower` is `to_lowercase`.
unfoldable pub is_address : (String → String) → Option String → Bool
is_address lower none = false
is_address lower (some e) =
    any_char (λ c. c == 64) e && not (ends_with ".invalid" (lower e)) && not (any_char is_refused e)

-- The keys `reply_to` and `headers` are left out where they have nothing to say.
unfoldable pub new_payload : String → Thread → Message → Json
new_payload from t m =
    let headers : Fields = elim m.reply_to_id [
      | none ↦ end
      | some id ↦ field "headers" (object (field "In-Reply-To" (string id) end)) end
    ] in
    object (
      field "from" (string from) (
        field "to" (array (cons (string (text_of t.recipient_email)) nil)) (
          field "subject" (string m.subject) (
            field "text" (string m.body) (
              if is_empty t.reply_to
              then headers
              else field "reply_to" (string t.reply_to) headers)))))

unfoldable pub payload_of : String → Thread → Message → Json
unfolding new_payload
payload_of from t m = elim m.send_payload [ none ↦ new_payload from t m | some p ↦ p ]

-- first_attempt_at=coalesce(first_attempt_at,now())
unfoldable pub attempting : ℕ → Json → Message → Message
attempting now payload m = record m {
  status = sending;
  send_payload = some payload;
  first_attempt_at = elim m.first_attempt_at [ none ↦ some now | some t ↦ some t ];
  updated_at = now;
  error = none;
}

-- More than 23 hours ago.
abbrev pub expired : ℕ → Option ℕ → Bool
expired now none = false
expired now (some first) = ltb (first + seconds (23 * 3600)) now

-- The guards between the choice of the message and the call of the provider.
unfoldable pub check_message :
    (String → String) → ℕ → String → Db → Thread → Message → Result (Unit {0})
unfolding may_send_review is_address
check_message lower now ws db t m = do
  fail_if (is_sending m.status && ltb now (m.updated_at + seconds 90)) conflict
  fail_if (not (may_send_review ws m.review_run_id db)) conflict
  fail_if (not (is_address lower t.recipient_email)) invalid
  fail_if (expired now m.first_attempt_at) conflict

-- What the first transaction leaves when it posts `m`.
unfoldable pub frozen : ℕ → Message → Json → List Thread → Office → Office
unfolding attempting
frozen now m payload threads office = record office {
  threads = threads;
  messages = update_rows (is_message m.id) (attempting now payload) office.messages;
}

-- From the guards on the chosen message to the payload that is posted.
unfoldable pub post_message :
    (String → String)
    → String
    → ℕ
    → String
    → ℕ
    → List Thread
    → Thread
    → Message
    → Office
    → Result (Begun × Office)
unfolding check_message payload_of frozen
post_message lower sender now ws thread threads t m office = do
  fail_if (is_discarded t.status || is_dropped m.status) conflict
  (if is_sent m.status then ok (sent_already, office) else (do
    check_message lower now ws office.db t m
    let payload = payload_of sender t m
    ok (
      posts (record { message = m.id; thread = thread; at = now; payload = payload }),
      frozen now m payload threads office,
    )))

-- `key` and `from` are RESEND_API_KEY and the sender of the configuration.
unfoldable pub begin_send :
    (String → String)
    → Option String
    → Option String
    → ℕ
    → String
    → ℕ
    → Option ℕ
    → Office
    → Result (Begun × Office)
unfolding address latest post_message
begin_send lower key from now ws thread wanted office = do
  _ ← ok_or key unavailable
  sender ← ok_or from unavailable
  let threads = address ws thread office
  m ← ok_or (latest (is_candidate ws thread wanted) office.messages) not_found
  t ← ok_or (find_row (has_key thread) threads) not_found
  post_message lower sender now ws thread threads t m office

-- The provider's identifier of the message, or that the call failed.
pub data Outcome : Type 0 where
  delivered : (provider : String) → Outcome
  refused : Outcome

unfoldable pub delivered_row : ℕ → String → Message → Message
delivered_row now provider m = record m {
  status = sent;
  provider_id = some provider;
  sent_at = some now;
  updated_at = now;
  error = none;
}

-- `cause` is the text of the error.
unfoldable pub failed_row : ℕ → String → Message → Message
failed_row now cause m = record m { status = failed; error = some cause; updated_at = now }

unfoldable pub fail_send : ℕ → String → Post → Office → Office
unfolding moved failed_row
fail_send now cause post office = record office {
  threads =
      update_rows (λ t. has_key post.thread t && not (is_discarded t.status))
        (moved now send_failed) office.threads;
  messages =
      update_rows (λ m. is_message post.message m && is_sending m.status) (failed_row now cause)
        office.messages;
}

-- Another message has the provider's identifier: the statement fails on the constraint.
abbrev pub is_taken : ℕ → String → Message → Bool
is_taken id provider m = not (m.id == id) && has_provider provider m

-- The answer of the provider is written down.
unfoldable pub settle : ℕ → String → Post → Outcome → Office → Office
unfolding fail_send delivered_row moved
settle now cause post refused office = fail_send now cause post office
settle now cause post (delivered provider) office =
    if any_row (is_taken post.message provider) office.messages
    then fail_send now cause post office
    else record office {
      messages = update_rows (is_message post.message) (delivered_row now provider) office.messages;
      threads = update_rows (has_key post.thread) (moved now awaiting_reply) office.threads;
    }
