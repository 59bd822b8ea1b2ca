-- ===== src/Purchasing/Drafts.antt =====
-- src/purchasing.rs, `prepare_drafts`: one draft for each vendor that something is short of. The check
-- runs in the transaction of its caller, which holds the lock of the role.
use backhaus_ai_backend.Base.{
  ℕ, ◌+◌, Bool, true, false, ◌&&◌, ◌||◌, Option, none, some, List, [], ◌∷◌, ◌++◌, String, str_eq,
  ltb, ◌==◌, if◌then◌else◌, find_row, rows_where, update_rows, map, length,
}
use backhaus_ai_backend.Base.Maps.{entry}
use backhaus_ai_backend.Base.Json.{Json, string, number, array, object, field, end, json_eq}
use backhaus_ai_backend.Decimal.{Decimal, Arithmetic, Rounding, whole}
use backhaus_ai_backend.Store.{Db}
use backhaus_ai_backend.Store.Orders.{
  Order, draft, approved, rejected, withdrawn, automatic, is_draft, Line,
}
use backhaus_ai_backend.Purchasing.{
  Reason, exceeds_approval_limit, vendor_details_incomplete, within_auto_approval_limit,
  exceeds_auto_approval_limit, manual_approval_required, decided_row,
}
use backhaus_ai_backend.Purchasing.Lines.{
  actor_agent, money, items_of, line_json, line_fingerprint, describe_reason, next_number,
  insert_lines, record_event, lines_of,
}
use backhaus_ai_backend.Purchasing.Shortages.{VendorGroup}

-- A draft of the table `drafts`: the vendor, the order and its version.
pub record Draft : Type 0 where
  pub vendor_id : ℕ
  pub id : ℕ
  pub version : ℕ

abbrev pub for_vendor : ℕ → Draft → Bool
for_vendor v d = d.vendor_id == v

abbrev pub draft_before : Draft → Draft → Bool
draft_before a b = ltb a.vendor_id b.vendor_id

abbrev pub is_open : String → Order → Bool
is_open ws o = str_eq o.workspace ws && is_draft o.status

abbrev pub draft_of : Order → Draft
draft_of o = record { vendor_id = o.vendor_id; id = o.id; version = o.version }

unfoldable pub collect_drafts : List Order → List Draft → List Draft
collect_drafts [] drafts = drafts
collect_drafts (o ∷ os) drafts =
    collect_drafts os
      (entry draft_before (for_vendor o.vendor_id) (λ _. draft_of o) (draft_of o) drafts)

unfoldable pub load_drafts : String → Db → List Draft
unfolding collect_drafts
load_drafts ws db = collect_drafts (rows_where (is_open ws) db.orders) []

abbrev pub reason_name : Reason → String
reason_name exceeds_approval_limit = "exceeds_approval_limit"
reason_name vendor_details_incomplete = "vendor_details_incomplete"
reason_name within_auto_approval_limit = "within_auto_approval_limit"
reason_name exceeds_auto_approval_limit = "exceeds_auto_approval_limit"
reason_name manual_approval_required = "manual_approval_required"

-- decided_at DESC NULLS LAST, created_at DESC
abbrev decided_later : Order → Order → Bool
decided_later a b = elim a.decided_at [
  | none ↦ elim b.decided_at [ none ↦ ltb b.created_at a.created_at | some _ ↦ false ]
  | some s ↦ elim b.decided_at [
    | none ↦ true
    | some t ↦ ltb t s || (s == t && ltb b.created_at a.created_at)
  ]
]

abbrev better_of : Order → Option Order → Option Order
better_of a none = some a
better_of a (some b) = some (if decided_later b a then b else a)

abbrev is_rejected_for : String → ℕ → Order → Bool
is_rejected_for ws v o =
    str_eq o.workspace ws && o.vendor_id == v && elim o.status [ rejected ↦ true | _ ↦ false ]

-- ORDER BY … LIMIT 1 over the rejected orders of a vendor
unfoldable pub last_rejected : String → ℕ → List Order → Option Order
last_rejected ws v [] = none
last_rejected ws v (o ∷ os) =
    let rest = last_rejected ws v os in if is_rejected_for ws v o then better_of o rest else rest

abbrev pub same_lines : Arithmetic → List Line → List Line → Bool
same_lines ops [] [] = true
same_lines ops (a ∷ xs) (b ∷ ys) =
    json_eq (line_fingerprint ops a) (line_fingerprint ops b) && same_lines ops xs ys
same_lines ops _ _ = false

-- The vendor's last rejected order proposed the same lines.
unfoldable pub is_held : Arithmetic → String → VendorGroup → Db → Option Order
unfolding last_rejected lines_of
is_held ops ws g db = elim (last_rejected ws g.vendor_id db.orders) [
  | none ↦ none
  | some o ↦ if same_lines ops (lines_of ws o.id 500 db) g.lines then some o else none
]

abbrev pub total_of : Arithmetic → List Decimal → Decimal → Decimal
total_of ops [] sum = sum
total_of ops (d ∷ ds) sum = total_of ops ds (ops.add sum d)

unfoldable pub subtotal_of : Arithmetic → Rounding → VendorGroup → Decimal
unfolding money
subtotal_of ops r g = money r (total_of ops (map (λ l. l.line_total) g.lines) (whole 0))

unfoldable pub group_attention : VendorGroup → List Json
group_attention g =
    if g.contact_missing
    then object (
        field "reason" (string "vendor_contact_missing") (
          field "detail"
            (string "No email or phone is recorded for this vendor; the order cannot be sent yet")
            end))
      ∷ []
    else []

-- What the check proposes for a vendor.
pub record Proposal : Type 0 where
  pub group : VendorGroup
  pub subtotal : Decimal
  pub attention : List Json
  pub reason : String
  pub revision : ℕ

abbrev pub has_id : ℕ → Order → Bool
has_id id o = o.id == id

-- The lines did not change.
unfoldable pub refreshed : ℕ → Proposal → Order → Order
refreshed now p o = record o {
  revision = p.revision;
  attention = p.attention;
  approval_reason = p.reason;
  updated_at = now;
}

-- The lines changed.
unfoldable pub revised : ℕ → Proposal → ℕ → Order → Order
revised now p version o = record o {
  subtotal = p.subtotal;
  line_count = length p.group.lines;
  attention = p.attention;
  approval_reason = p.reason;
  revision = p.revision;
  version = version + 1;
  updated_at = now;
}

unfoldable pub drafted : ℕ → String → ℕ → String → Proposal → Order
drafted now ws id num p = record {
  id = id;
  workspace = ws;
  number = num;
  vendor_id = p.group.vendor_id;
  status = draft;
  approval_kind = none;
  approval_reason = p.reason;
  subtotal = p.subtotal;
  line_count = length p.group.lines;
  revision = p.revision;
  version = 1;
  decided_at = none;
  decided_by = none;
  decision_note = none;
  vendor_snapshot = none;
  attention = p.attention;
  created_at = now;
  updated_at = now;
}

abbrev order_number : ℕ → List Order → String
order_number id os = elim (find_row (has_id id) os) [ none ↦ "" | some o ↦ o.number ]

-- The order of a proposal: its identifier, its number and what changed.
pub record Placed : Type 0 where
  pub id : ℕ
  pub num : String
  pub change : String

module _ (ops : Arithmetic) (show : ℕ → String) (now : ℕ) (ws : String) where
  abbrev revision_payload : Proposal → Json
  revision_payload p = object (
      field "revision" (number (show p.revision)) (
        field "subtotal" (string (ops.print p.subtotal)) (
          field "line_count" (number (show (length p.group.lines)))
            (field "lines" (array (items_of (map (line_json ops) p.group.lines))) end))))

  abbrev revised_payload : Proposal → ℕ → Json
  revised_payload p version = object (
      field "revision" (number (show p.revision)) (
        field "version" (number (show (version + 1))) (
          field "subtotal" (string (ops.print p.subtotal)) (
            field "line_count" (number (show (length p.group.lines)))
              (field "lines" (array (items_of (map (line_json ops) p.group.lines))) end)))))

  -- The draft of the vendor, taken up again.
  unfoldable pub revise : Draft → Proposal → Db → Placed × Db
  unfolding lines_of refreshed revised insert_lines record_event
  revise d p db =
      let num = order_number d.id db.orders in
      if same_lines ops (lines_of ws d.id 500 db) p.group.lines
      then (
        record { id = d.id; num = num; change = "unchanged" },
        record db { orders = update_rows (has_id d.id) (refreshed now p) db.orders },
      )
      else (
        record { id = d.id; num = num; change = "revised" },
        record_event ws d.id "revised" actor_agent (revised_payload p d.version) (
            insert_lines ws d.id p.group.lines (record db {
              orders = update_rows (has_id d.id) (revised now p d.version) db.orders;
            })),
      )

  -- A new draft under a new identifier.
  unfoldable pub open_draft : ℕ → Proposal → Db → Placed × Db
  unfolding next_number drafted insert_lines record_event
  open_draft id p db =
      let n = next_number show ws db in
      (
        record { id = id; num = n.0; change = "drafted" },
        record_event ws id "drafted" actor_agent (revision_payload p) (
            insert_lines ws id p.group.lines (record db {
              orders = db.orders ++ drafted now ws id n.0 p ∷ [];
              counters = n.1.counters;
            })),
      )

  -- The agent records the approval of a draft itself.
  unfoldable pub approve_draft : ℕ → Proposal → Db → Db
  unfolding decided_row record_event describe_reason
  approve_draft id p db =
      record_event ws id "approved" actor_agent
        (object (
          field "kind" (string "automatic") (
            field "note" (string (describe_reason p.reason))
              (field "subtotal" (string (ops.print p.subtotal)) end))))
        (record db {
          orders =
              update_rows (λ o. str_eq o.workspace ws && o.id == id && is_draft o.status)
                (decided_row now approved (some automatic) actor_agent
                  (some (describe_reason p.reason)) db.vendors)
                db.orders;
        })

  unfoldable pub withdrawn_row : ℕ → Order → Order
  withdrawn_row revision o = record o {
    status = withdrawn;
    decided_at = some now;
    decided_by = some actor_agent;
    decision_note = some "No items below par remain for this vendor";
    revision = revision;
    updated_at = now;
  }

  unfoldable pub withdraw : ℕ → Draft → Db → String × Db
  unfolding withdrawn_row record_event
  withdraw revision d db = (
    order_number d.id db.orders,
    record_event ws d.id "withdrawn" actor_agent
        (object
          (field "revision" (number (show revision)) (field "reason" (string "no_shortage") end)))
        (record db { orders = update_rows (has_id d.id) (withdrawn_row revision) db.orders }),
  )
