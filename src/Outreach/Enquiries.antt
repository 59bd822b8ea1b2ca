-- ===== src/Outreach/Enquiries.antt =====
-- src/outreach.rs: `create_enquiry`, which opens a thread with its first message, and what
-- `approve_candidate` writes when that message could not be sent.
use Prim.Native.Nat.Ordering.{lt}
use Prim.Native.String
use Prim.Native.String.{◌++◌ as str_append}
use backhaus_ai_backend.Base.{
  ℕ, Bool, true, false, not, ◌&&◌, ◌||◌, Option, none, some, List, [], ◌∷◌, ◌++◌, String, str_eq,
  ltb, ◌==◌, if◌then◌else◌, any_row, find_row, rows_where, count_rows, update_rows, map, length,
}
use backhaus_ai_backend.Base.Maps.{insert_before}
use backhaus_ai_backend.Base.Json.{
  Json, string, array, Items, nil, cons, object, field, end, json_eq,
}
use backhaus_ai_backend.Base.Result.{
  Result, ok, err, invalid, not_found, conflict, ok_or, ◌>>=◌, ◌>>◌, fail_if,
}
use backhaus_ai_backend.Decimal.{Decimal, Arithmetic, whole}
use backhaus_ai_backend.Store.{Db}
use backhaus_ai_backend.Store.Stock.{Item}
use backhaus_ai_backend.Store.Orders.{Vendor}
use backhaus_ai_backend.Store.Outreach.{
  ThreadStatus, send_failed, MessageStatus, failed, email, Thread, Message, is_discarded, is_failed,
}
use backhaus_ai_backend.Purchasing.{is_vendor}
use backhaus_ai_backend.Settings.{SettingsView}
use backhaus_ai_backend.Outreach.{Office, Detail, detail, is_thread, moved}
use backhaus_ai_backend.Outreach.Replies.{outbound_message}
use backhaus_ai_backend.Outreach.Reviews.{is_draft}

-- `sort` and `dedup`
abbrev before : String → String → Bool
before a b = elim (String.compare a b) [ lt ↦ true | _ ↦ false ]

unfoldable pub sorted_ids : List String → List String
sorted_ids [] = []
sorted_ids (s ∷ ss) =
    let rest = sorted_ids ss in
    if any_row (str_eq s) rest then rest else insert_before before s rest

abbrev strings : List String → Items
strings [] = nil
strings (s ∷ ss) = cons (string s) (strings ss)

-- The researched request, with the run that it comes from.
abbrev pub Brief : Type 0
Brief = ℕ × String

abbrev pub join_lines : List String → String
join_lines [] = ""
join_lines (s ∷ ss) = elim ss [ [] ↦ s | _ ∷ _ ↦ str_append s (str_append "\n" (join_lines ss)) ]

-- status IN (…): every status but discarded
abbrev pub is_same_enquiry : String → ℕ → Json → Thread → Bool
is_same_enquiry ws vendor key t =
    str_eq t.workspace ws
    && t.vendor_id == vendor
    && json_eq t.item_ids key
    && not (is_discarded t.status)

abbrev newer_thread : Thread → Option Thread → Option Thread
newer_thread t none = some t
newer_thread t (some u) = some (if ltb t.created_at u.created_at then u else t)

unfoldable pub newest_thread : (Thread → Bool) → List Thread → Option Thread
newest_thread p [] = none
newest_thread p (t ∷ ts) =
    let rest = newest_thread p ts in if p t then newer_thread t rest else rest

abbrev unit_of : Option String → String
unit_of none = "units"
unit_of (some u) = u

abbrev is_chosen : String → List String → Item → Bool
is_chosen ws ids i = str_eq i.workspace ws && any_row (str_eq i.id) ids

-- `show_id` prints an identifier, `collate` is ORDER BY name.
module _ (ops : Arithmetic) (show_id : ℕ → String) (collate : List Item → List Item) where
  unfoldable pub supplies_key : Option Brief → List String → Json
  supplies_key none ids = array (strings ids)
  supplies_key (some b) ids =
      object (field "research_run_id" (string (show_id b.0)) (field "request" (string b.1) end))

  -- greatest(par_level-current_balance,0), where a missing level is passed over
  unfoldable pub needed : Item → Decimal
  needed i = elim i.par_level [
    | none ↦ whole 0
    | some par ↦
        let d : Decimal = ops.sub par i.current_balance in if ops.lt d (whole 0) then whole 0 else d
  ]

  unfoldable pub item_line : Item → String
  unfolding needed
  item_line i = str_append "• " (
      str_append i.name (
        str_append ": " (
          str_append (ops.print (needed i))
            (str_append " " (str_append (unit_of i.unit) " to replenish")))))

  unfoldable pub enquiry_lines : String → Option Brief → List String → Db → Result String
  unfolding item_line
  enquiry_lines ws (some b) ids db = ok (
      str_append "Requested supplies and requirements:\n" (
        str_append b.1
          "\n\nIf quantities or specifications are not stated, please provide your available options and minimum order."))
  enquiry_lines ws none ids db = do
    let items = collate (rows_where (is_chosen ws ids) db.items)
    fail_if (not (length items == length ids)) invalid
    ok (join_lines (map item_line items))

  unfoldable pub enquiry_subject : ℕ → String
  enquiry_subject id = str_append "Supply enquiry [BH-" (str_append (show_id id) "]")

  unfoldable pub enquiry_body : SettingsView → Vendor → String → String
  enquiry_body s v lines = str_append "Hello " (
      str_append v.name (
        str_append ",\n\nI'm contacting you for " (
          str_append s.business_name (
            str_append " in " (
              str_append s.city (
                str_append ", " (
                  str_append s.country (
                    str_append ". Could you provide a quotation for these supplies?\n\n" (
                      str_append lines
                        "\n\nPlease include your price, pack size, minimum order, availability, delivery cost and lead time, and payment terms.\n\nThis is a quotation request only, not an order confirmation. Thank you.")))))))))

  unfoldable pub new_thread : ℕ → ℕ → String → Json → SettingsView → Vendor → String → Thread
  unfolding enquiry_subject
  new_thread now id ws key s v body = record {
    id = id;
    workspace = ws;
    vendor_id = v.id;
    item_ids = key;
    subject = enquiry_subject id;
    initial_body = body;
    status = ThreadStatus.draft;
    reply_to = s.reply_to;
    recipient_email = v.email;
    recipient_phone = v.phone;
    created_at = now;
    updated_at = now;
  }

  unfoldable pub first_message : ℕ → ℕ → ℕ → String → String → Message
  unfolding enquiry_subject
  first_message now id thread ws body =
      outbound_message now id ws thread email body (enquiry_subject thread) MessageStatus.draft none

  -- The thread that is there already, or a new one with its first message.
  unfoldable pub open_enquiry :
      ℕ
      → ℕ
      → ℕ
      → String
      → SettingsView
      → ℕ
      → List String
      → Option Brief
      → Office
      → Result (ℕ × Office)
  unfolding sorted_ids newest_thread supplies_key enquiry_lines enquiry_body new_thread
      first_message
  open_enquiry now id message ws s vendor items brief office = do
    fail_if (not s.location_ready) conflict
    fail_if (elim brief [ none ↦ length items == 0 || ltb 5 (length items) | some _ ↦ false ])
        invalid
    let ids = sorted_ids items
    let key = supplies_key brief ids
    v ← ok_or (find_row (is_vendor ws vendor) office.db.vendors) not_found
    elim (newest_thread (is_same_enquiry ws vendor key) office.threads) [
      | some t ↦ ok (t.id, office)
      | none ↦ do
        fail_if (str_eq v.research_status "discarded") conflict
        lines ← enquiry_lines ws brief ids office.db
        let body = enquiry_body s v lines
        ok (
          id,
          record office {
            threads = office.threads ++ new_thread now id ws key s v body ∷ [];
            messages = office.messages ++ first_message now message id ws body ∷ [];
          },
        )
    ]

  unfoldable pub create_enquiry :
      ℕ
      → ℕ
      → ℕ
      → String
      → SettingsView
      → ℕ
      → List String
      → Option Brief
      → Office
      → Result Detail × Office
  unfolding open_enquiry detail
  create_enquiry now id message ws s vendor items brief office =
      elim (open_enquiry now id message ws s vendor items brief office) [
        | err e ↦ (err e, office)
        | ok p ↦ (detail ws p.0 p.1, p.1)
      ]

-- status IN ('draft','failed')
abbrev pub is_unposted : String → ℕ → Message → Bool
is_unposted ws id m =
    str_eq m.workspace ws && m.id == id && (is_draft m.status || is_failed m.status)

abbrev pub failed_early : ℕ → String → Message → Message
failed_early now cause m = record m { status = failed; error = some cause; updated_at = now }

-- A first message that could not be sent stays visible as failed.
unfoldable pub approval_failed : ℕ → String → String → ℕ → ℕ → Office → Office
unfolding moved
approval_failed now cause ws thread first office = record office {
  messages = update_rows (is_unposted ws first) (failed_early now cause) office.messages;
  threads =
      if count_rows (is_unposted ws first) office.messages == 0
      then office.threads
      else update_rows (λ t. is_thread ws thread t && not (is_discarded t.status))
          (moved now send_failed) office.threads;
}
