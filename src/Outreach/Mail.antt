-- ===== src/Outreach/Mail.antt =====
-- src/outreach.rs: `sync`, which looks for the suppliers' answers in the mailbox of the provider. The
-- provider is a parameter.
use Prim.Native.String.{◌++◌ as str_append}
use Prim.Native.Char.{code}
use backhaus_ai_backend.Base.{
  ℕ, ◌+◌, suc, Bool, true, false, not, ◌&&◌, ◌||◌, Option, none, some, List, [], ◌∷◌, String,
  str_eq, ltb, leb, ◌==◌, if◌then◌else◌, any_row, find_row, rows_where, take, length,
}
use backhaus_ai_backend.Base.Maps.{insert_before}
use backhaus_ai_backend.Base.Result.{Result, ok, err, unavailable, ◌>>=◌, ◌>>◌, fail_if}
use backhaus_ai_backend.Base.Text.{trim, is_empty, contains, take_chars}
use backhaus_ai_backend.Store.Outreach.{email, Thread, Message, is_discarded, is_sent, is_email}
use backhaus_ai_backend.Outreach.{Office, of_thread}
use backhaus_ai_backend.Outreach.Replies.{has_provider, Ingested, reused, stored, ingest}

-- An entry of the list of received mails, and the mail itself.
pub record Mail : Type 0 where
  pub id : Option String
  pub subject : String
  pub from : String
  pub to : List String

pub record Email : Type 0 where
  pub headers : List (String × Option String)
  pub text : String
  pub message_id : Option String

abbrev ascii_lower : ℕ → ℕ
ascii_lower c = if leb 65 c && leb c 90 then c + 32 else c

-- `eq_ignore_ascii_case`
abbrev pub eq_ascii : String → String → Bool
eq_ascii String.[] String.[] = true
eq_ascii (String.◌∷◌ c s) (String.◌∷◌ d t) =
    (ascii_lower (code c) == ascii_lower (code d)) && eq_ascii s t
eq_ascii _ _ = false

-- `rsplit_once('<')`, the part after it
abbrev after_last : String → Option String
after_last String.[] = none
after_last (String.◌∷◌ c s) = elim (after_last s) [
  | some t ↦ some t
  | none ↦ if code c == 60 then some s else none
]

-- `trim_end_matches('>')`
abbrev cut_brackets : String → String
cut_brackets String.[] = String.[]
cut_brackets (String.◌∷◌ c s) =
    let rest = cut_brackets s in
    if code c == 62 && is_empty rest then String.[] else String.◌∷◌ c rest

abbrev address_part : String → String
address_part value = elim (after_last value) [ none ↦ value | some s ↦ cut_brackets s ]

-- `lower` is `to_lowercase`.
unfoldable pub sender_address : (String → String) → String → String
sender_address lower value = lower (trim (address_part value))

abbrev pub email_or_empty : Option String → String
email_or_empty none = ""
email_or_empty (some e) = e

-- The threads that wait for mail, the last changed first.
abbrev pub awaits_mail : String → List Message → Thread → Bool
awaits_mail ws messages t =
    str_eq t.workspace ws
    && not (is_discarded t.status)
    && not (is_empty t.reply_to)
    && any_row (λ m. of_thread t.id m && is_email m.channel && is_sent m.status) messages

abbrev changed_after : Thread → Thread → Bool
changed_after a b = ltb b.updated_at a.updated_at

unfoldable pub last_changed : List Thread → List Thread
last_changed [] = []
last_changed (t ∷ ts) = insert_before changed_after t (last_changed ts)

unfoldable pub waiting_threads : String → Office → List Thread
unfolding last_changed
waiting_threads ws office =
    take 100 (last_changed (rows_where (awaits_mail ws office.messages) office.threads))

-- The tag in the subject, the sender, and our own address.
unfoldable pub is_answer : (String → String) → (ℕ → String) → Mail → Thread → Bool
unfolding sender_address
is_answer lower show_id m t =
    contains (str_append "[BH-" (str_append (show_id t.id) "]")) m.subject
    && str_eq (sender_address lower m.from) (lower (email_or_empty t.recipient_email))
    && any_row (λ a. eq_ascii a t.reply_to) m.to

abbrev holds_text : String → Option String → Bool
holds_text s none = false
holds_text s (some t) = str_eq t s

-- A header of an automatic answer or of a mailing list.
abbrev pub is_automatic : String × Option String → Bool
is_automatic h =
    (eq_ascii h.0 "auto-submitted" && not (holds_text "no" h.1))
    || (eq_ascii h.0 "precedence"
        && (holds_text "bulk" h.1 || holds_text "list" h.1 || holds_text "junk" h.1))

abbrev is_new : Ingested → Bool
is_new reused = false
is_new (stored _ _) = true

-- `fetch` gets a mail from the provider, `is_uuid` is the parser of identifiers.
module _ (lower : String → String) (show_id : ℕ → String) (is_uuid : String → Bool)
    (fetch : String → Result Email) (now : ℕ) (ws : String) where
  -- Whether the mail was stored.
  unfoldable pub take_mail : ℕ → ℕ → Thread → Mail → String → Office → Result (Bool × Office)
  unfolding ingest
  take_mail message run t m id office = do
    fail_if (not (is_uuid id)) unavailable
    e ← fetch id
    let body = take_chars 12000 e.text
    (if any_row is_automatic e.headers || is_empty (trim body) then ok (false, office) else (do
      r ←
          ingest show_id now message run ws t.id
            (record {
              channel = email;
              body = body;
              subject = m.subject;
              provider = str_append "received:" id;
              internet = e.message_id;
            })
            office
      ok (is_new r.0, r.1)))

  unfoldable pub sync_mail : ℕ → ℕ → List Thread → Mail → Office → Result (Bool × Office)
  unfolding is_answer take_mail
  sync_mail message run threads m office = elim (find_row (is_answer lower show_id m) threads) [
    | none ↦ ok (false, office)
    | some t ↦ elim m.id [
      | none ↦ ok (false, office)
      | some id ↦
          if any_row (has_provider (str_append "received:" id)) office.messages
          then ok (false, office)
          else take_mail message run t m id office
    ]
  ]

  abbrev counted : Bool → Result ℕ → Result ℕ
  counted b (err e) = err e
  counted b (ok n) = ok (if b then suc n else n)

  -- Each mail is stored in a transaction of its own: those before an error stay. `new_message` and
  -- `new_run` draw the identifiers for the mail at a place of the list.
  unfoldable pub sync_mails :
      (ℕ → ℕ) → (ℕ → ℕ) → ℕ → List Thread → List Mail → Office → Result ℕ × Office
  unfolding sync_mail
  sync_mails new_message new_run place threads [] office = (ok 0, office)
  sync_mails new_message new_run place threads (m ∷ ms) office =
      elim (sync_mail (new_message place) (new_run place) threads m office) [
        | err e ↦ (err e, office)
        | ok r ↦
            let rest = sync_mails new_message new_run (suc place) threads ms r.1 in
            (counted r.0 rest.0, rest.1)
      ]

  -- `key` is RESEND_API_KEY, `list` what the provider answers with.
  unfoldable pub sync :
      (ℕ → ℕ) → (ℕ → ℕ) → Option String → Result (List Mail) → Office → Result ℕ × Office
  unfolding waiting_threads sync_mails
  sync new_message new_run none list office = (err unavailable, office)
  sync new_message new_run (some key) list office =
      let threads = waiting_threads ws office in
      if length threads == 0 then (ok 0, office) else (elim list [
        | err e ↦ (err e, office)
        | ok ms ↦ sync_mails new_message new_run 0 threads ms office
      ])
