-- ===== src/Outreach/Processing.antt =====
-- src/outreach.rs: `send_email` as a whole, and `process_replies`, which looks for mail and sends the
-- questions of completed reviews. The provider is a parameter.
use backhaus_ai_backend.Base.{
  ℕ, Bool, false, not, ◌&&◌, Option, none, some, List, [], ◌∷◌, String, str_eq, if◌then◌else◌,
  any_row, find_row, rows_where, take,
}
use backhaus_ai_backend.Base.Result.{Result, ok, err, unavailable, database}
use backhaus_ai_backend.Store.{RunRow}
use backhaus_ai_backend.Store.Outreach.{Message, is_pending, is_email}
use backhaus_ai_backend.Settings.{SettingsRow, has_settings}
use backhaus_ai_backend.Outreach.{Office, in_order}
use backhaus_ai_backend.Outreach.Sending.{
  Post, posts, sent_already, begin_send, Outcome, delivered, refused, settle, agent_on,
  is_completed, is_taken,
}
use backhaus_ai_backend.Outreach.Mail.{Mail, Email, sync}

-- What `send_email` answers with: that the message was sent before, or is sent now.
pub data Sent : Type 0 where
  sent_before : Sent
  sent_now : (message : ℕ) → Sent

abbrev sent_result : Post → Outcome → List Message → Result Sent
sent_result post refused messages = err unavailable
sent_result post (delivered provider) messages =
    if any_row (is_taken post.message provider) messages
    then err database
    else ok (sent_now post.message)

-- Both transactions of a send, when nothing runs between them; `provider` is the call.
unfoldable pub send_email :
    (String → String)
    → Option String
    → Option String
    → (Post → Outcome)
    → String
    → ℕ
    → ℕ
    → String
    → ℕ
    → Option ℕ
    → Office
    → Result Sent × Office
unfolding begin_send settle
send_email lower key from provider cause now later ws thread wanted office =
    elim (begin_send lower key from now ws thread wanted office) [
      | err e ↦ (err e, office)
      | ok r ↦ elim r.0 [
        | sent_already ↦ (ok sent_before, r.1)
        | posts post ↦ (
          sent_result post (provider post) r.1.messages,
          settle later cause post (provider post) r.1,
        )
      ]
    ]

-- The questions whose review has completed, the oldest first, three at most.
abbrev is_ready : String → List RunRow → Message → Bool
is_ready ws runs m =
    str_eq m.workspace ws
    && is_pending m.status
    && is_email m.channel
    && elim m.review_run_id [ none ↦ false | some run ↦ any_row (is_completed run) runs ]

unfoldable pub ready_questions : String → Office → List Message
unfolding in_order
ready_questions ws office =
    take 3 (in_order (rows_where (is_ready ws office.db.runs) office.messages))

-- A send that fails is logged, and the next one is tried.
unfoldable pub send_all :
    (String → String)
    → Option String
    → Option String
    → (Post → Outcome)
    → String
    → ℕ
    → String
    → List Message
    → Office
    → Office
unfolding send_email
send_all lower key from provider cause now ws [] office = office
send_all lower key from provider cause now ws (m ∷ ms) office =
    send_all lower key from provider cause now ws ms
      (send_email lower key from provider cause now now ws m.thread_id (some m.id) office).1

abbrev pub replies_itself : String → List SettingsRow → Bool
replies_itself ws rows = elim (find_row (has_settings ws) rows) [
  | none ↦ false
  | some s ↦ s.auto_reply
]

unfoldable pub process_replies :
    (String → String)
    → (ℕ → String)
    → (String → Bool)
    → (String → Result Email)
    → (ℕ → ℕ)
    → (ℕ → ℕ)
    → Option String
    → Option String
    → Result (List Mail)
    → (Post → Outcome)
    → String
    → ℕ
    → String
    → Office
    → Result (Unit {0}) × Office
unfolding sync ready_questions send_all
process_replies lower show_id is_uuid fetch new_message new_run key from list provider cause now ws
      office =
    let synced = sync lower show_id is_uuid fetch now ws new_message new_run key list office in
    if not (agent_on ws office.db) then (ok tt, office) else (elim synced.0 [
      | err e ↦ (err e, synced.1)
      | ok _ ↦
          if replies_itself ws synced.1.settings
          then (
            ok tt,
            send_all lower key from provider cause now ws (ready_questions ws synced.1) synced.1,
          )
          else (ok tt, synced.1)
    ])
