-- ===== src/Outreach/Ending.antt =====
-- src/outreach.rs: the end of an enquiry, `discard`, the operator's `candidate_action`, and `whatsapp`.
use Prim.Native.String.{◌++◌ as str_append, count}
use Prim.Native.Char.{code}
use backhaus_ai_backend.Base.{
  ℕ, ◌+◌, Bool, true, false, not, ◌&&◌, ◌||◌, Option, none, some, List, [], ◌∷◌, String, str_eq,
  ltb, leb, ◌==◌, if◌then◌else◌, any_row, find_row, update_rows, rows_where, count_rows, reverse,
}
use backhaus_ai_backend.Base.Result.{
  Result, ok, err, invalid, not_found, conflict, ◌>>=◌, ◌>>◌, fail_if,
}
use backhaus_ai_backend.Base.Text.{trim, starts_with}
use backhaus_ai_backend.Store.Orders.{Vendor}
use backhaus_ai_backend.Store.Outreach.{
  ThreadStatus, whatsapp_opened, MessageStatus, superseded, Thread, Message, is_discarded,
  is_sending, is_unsent, is_failed, is_outbound,
}
use backhaus_ai_backend.Purchasing.{is_vendor}
use backhaus_ai_backend.Outreach.{Office, Detail, detail, is_thread, of_thread, moved, marked}

-- direction='outbound' AND status IN ('draft','review_pending','failed')
abbrev pub is_open_message : ℕ → Message → Bool
is_open_message thread m =
    of_thread thread m && is_outbound m.direction && (is_unsent m.status || is_failed m.status)

unfoldable pub discard : ℕ → String → ℕ → Office → Result Office
unfolding moved marked
discard now ws thread office = do
  fail_if
      (any_row (λ m. of_thread thread m && str_eq m.workspace ws && is_sending m.status)
        office.messages)
      conflict
  fail_if (count_rows (is_thread ws thread) office.threads == 0) not_found
  ok (record office {
    threads = update_rows (is_thread ws thread) (moved now ThreadStatus.discarded) office.threads;
    messages =
        update_rows (is_open_message thread) (marked now MessageStatus.discarded) office.messages;
  })

-- Each thread is discarded in a transaction of its own: those before an error stay discarded.
unfoldable pub discard_all : ℕ → String → List Thread → Office → Result (Unit {0}) × Office
unfolding discard
discard_all now ws [] office = (ok tt, office)
discard_all now ws (t ∷ ts) office = elim (discard now ws t.id office) [
  | err e ↦ (err e, office)
  | ok office' ↦ discard_all now ws ts office'
]

unfoldable pub decided_vendor : ℕ → String → Vendor → Vendor
decided_vendor now status v = record v {
  research_status = status;
  version = v.version + 1;
  updated_at = now;
}

abbrev with_vendor : ℕ → String → ℕ → String → Office → Office
with_vendor now ws id status office = record office {
  db = record office.db {
    vendors = update_rows (is_vendor ws id) (decided_vendor now status) office.db.vendors;
  };
}

unfoldable pub decide_vendor : ℕ → String → ℕ → String → Office → Result (Unit {0}) × Office
unfolding decided_vendor
decide_vendor now ws id status office =
    if count_rows (is_vendor ws id) office.db.vendors == 0
    then (err not_found, office)
    else (ok tt, with_vendor now ws id status office)

abbrev pub is_live_thread : String → ℕ → Thread → Bool
is_live_thread ws vendor t =
    str_eq t.workspace ws && t.vendor_id == vendor && not (is_discarded t.status)

unfoldable pub candidate_action : ℕ → String → ℕ → String → Office → Result (Unit {0}) × Office
unfolding discard_all decide_vendor
candidate_action now ws id status office =
    let stopped = discard_all now ws (rows_where (is_live_thread ws id) office.threads) office in
    if str_eq status "shortlisted"
    then decide_vendor now ws id status office
    else if str_eq status "discarded"
    then (elim stopped.0 [
      | err e ↦ (err e, stopped.1)
      | ok _ ↦ decide_vendor now ws id status stopped.1
    ])
    else (err invalid, office)

abbrev is_digit : ℕ → Bool
is_digit c = leb 48 c && leb c 57

abbrev digits : String → String
digits String.[] = String.[]
digits (String.◌∷◌ c s) =
    let rest = digits s in if is_digit (code c) then String.◌∷◌ c rest else rest

-- `encode` is the encoding of a query parameter by the crate `url`.
unfoldable pub whatsapp_url : (String → String) → String → String → Result String
whatsapp_url encode phone body = do
  fail_if
      (not (starts_with "+" (trim phone))
        || ltb (count (digits phone)) 8
        || ltb 15 (count (digits phone)))
      invalid
  ok (str_append "https://wa.me/" (str_append (digits phone) (str_append "?text=" (encode body))))

-- status=CASE WHEN status='draft' THEN 'whatsapp_opened' ELSE status END
unfoldable pub opened : ℕ → Thread → Thread
opened now t = record t {
  status = elim t.status [ ThreadStatus.draft ↦ whatsapp_opened | s ↦ s ];
  updated_at = now;
}

abbrev is_superseded : MessageStatus → Bool
is_superseded superseded = true
is_superseded _ = false

-- The body of the last outbound message that is not superseded, else that of the enquiry.
abbrev composed : Detail → String
composed d =
    elim (find_row (λ m. is_outbound m.direction && not (is_superseded m.status))
      (reverse d.messages)) [ none ↦ d.thread.initial_body | some m ↦ m.body ]

abbrev number_of : Option String → String
number_of none = ""
number_of (some s) = s

unfoldable pub whatsapp : (String → String) → ℕ → String → ℕ → Office → Result (String × Office)
unfolding detail whatsapp_url opened
whatsapp encode now ws id office = do
  d ← detail ws id office
  fail_if (is_discarded d.thread.status) conflict
  url ← whatsapp_url encode (number_of d.recipient_phone) (composed d)
  ok (url, record office { threads = update_rows (is_thread ws id) (opened now) office.threads })
