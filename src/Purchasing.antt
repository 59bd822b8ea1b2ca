-- ===== src/Purchasing.antt =====
-- src/purchasing.rs: the purchasing policy, the approval rule, and the operator's decision on an
-- order. The ordering rule stands in `Packs`.
pub mod Lines
pub mod Packs
pub mod Shortages
pub mod Drafts
pub mod Check
pub mod Findings
pub mod Reviews
pub mod Approval
pub mod Decisions
pub mod History
mod Tests
use backhaus_ai_backend.Base.{
  ℕ, ◌+◌, Bool, true, false, not, ◌&&◌, Option, none, some, List, [], ◌∷◌, ◌++◌, String, str_eq,
  ◌==◌, if◌then◌else◌, find_row, update_rows,
}
use backhaus_ai_backend.Base.Json.{Json, null, string, object, field, end}
use backhaus_ai_backend.Base.Result.{
  Result, ok, err, invalid, not_found, conflict, ◌>>=◌, ◌>>◌, fail_if, ok_or,
}
use backhaus_ai_backend.Base.Text.{trim, is_empty, take_chars}
use backhaus_ai_backend.Decimal.{Decimal, Arithmetic, whole, le}
use backhaus_ai_backend.Store.{Db}
use backhaus_ai_backend.Store.Orders.{
  Vendor, PolicyRow, Contact, Order, OrderEvent, OrderStatus, draft, approved, rejected, withdrawn,
  ApprovalKind, manual, automatic, is_draft,
}

pub record Policy : Type 0 where
  pub auto_approve_limit : Decimal
  pub approval_limit : Option Decimal

abbrev policy_of : Option PolicyRow → Policy
policy_of none = record { auto_approve_limit = whole 0; approval_limit = none }
policy_of (some r) = record {
  auto_approve_limit = r.auto_approve_limit;
  approval_limit = r.approval_limit;
}

unfoldable pub policy : String → Db → Policy
policy ws db = policy_of (find_row (λ r. str_eq r.workspace ws) db.policies)

abbrev pub exceeds : Arithmetic → Option Decimal → Decimal → Bool
exceeds ops none subtotal = false
exceeds ops (some limit) subtotal = ops.lt limit subtotal

pub data Reason : Type 0 where
  exceeds_approval_limit vendor_details_incomplete within_auto_approval_limit : Reason
  exceeds_auto_approval_limit manual_approval_required : Reason

-- The attention list is read only for its emptiness.
unfoldable pub approval_reason : Arithmetic → Policy → Decimal → List Json → Reason × Bool
approval_reason ops p subtotal attention =
    if exceeds ops p.approval_limit subtotal
    then (exceeds_approval_limit, false)
    else (elim attention [
      | _ ∷ _ ↦ (vendor_details_incomplete, false)
      | [] ↦
          if ops.lt (whole 0) p.auto_approve_limit
          then (if le ops subtotal p.auto_approve_limit
              then (within_auto_approval_limit, true)
              else (exceeds_auto_approval_limit, false))
          else (manual_approval_required, false)
    ])

-- The operator's actions; `other` is any other text.
pub data Action : Type 0 where
  approve reject other : Action

-- The status to write, the approval kind, and the event to record, if the order changes.
unfoldable pub transition :
    Action → OrderStatus → Result (OrderStatus × Option ApprovalKind × Option String)
transition approve draft = ok (approved, some manual, some "approved")
transition approve approved = ok (approved, none, none)
transition reject draft = ok (rejected, none, some "rejected")
transition reject rejected = ok (rejected, none, none)
transition other _ = err invalid
transition _ _ = err conflict

abbrev pub kept_note : Option String → Option String
kept_note none = none
kept_note (some n) = let t = trim n in if is_empty t then none else some (take_chars 500 t)

abbrev stale : Option ℕ → ℕ → Bool
stale none version = false
stale (some v) version = not (v == version)

abbrev pub is_order : String → ℕ → Order → Bool
is_order ws id o = str_eq o.workspace ws && o.id == id

abbrev pub is_vendor : String → ℕ → Vendor → Bool
is_vendor ws id v = str_eq v.workspace ws && v.id == id

abbrev pub contact : Vendor → Contact
contact v = record {
  name = v.name;
  contact_name = v.contact_name;
  email = v.email;
  phone = v.phone;
}

unfoldable pub snapshot : String → ℕ → List Vendor → Option Contact
snapshot ws id vendors = elim (find_row (is_vendor ws id) vendors) [
  | none ↦ none
  | some v ↦ some (contact v)
]

abbrev or_else {ℓ} : {A : Type ℓ} → Option A → Option A → Option A
or_else none b = b
or_else (some a) b = some a

unfoldable pub decided_row :
    ℕ → OrderStatus → Option ApprovalKind → String → Option String → List Vendor → Order → Order
decided_row now next kind actor note vendors o = record o {
  status = next;
  approval_kind = or_else kind o.approval_kind;
  decided_at = some now;
  decided_by = some actor;
  decision_note = note;
  version = o.version + 1;
  updated_at = now;
  vendor_snapshot = snapshot o.workspace o.vendor_id vendors;
}

abbrev kind_json : Option ApprovalKind → Json
kind_json none = null
kind_json (some manual) = string "manual"
kind_json (some automatic) = string "automatic"

abbrev pub text_json : Option String → Json
text_json none = null
text_json (some s) = string s

abbrev pub decision_event :
    Arithmetic → String → Order → String → String → Option ApprovalKind → Option String → OrderEvent
decision_event ops ws o event actor kind note = record {
  order_id = o.id;
  workspace = ws;
  event_type = event;
  actor = actor;
  payload = object (
      field "kind" (kind_json kind)
        (field "note" (text_json note) (field "subtotal" (string (ops.print o.subtotal)) end)));
}

-- The writes of a decision that changes the order.
unfoldable pub apply_decision :
    Arithmetic
    → ℕ
    → String
    → Order
    → OrderStatus
    → Option ApprovalKind
    → String
    → String
    → Option String
    → Db
    → Result Db
unfolding decided_row
apply_decision ops now ws o next kind event actor note db = do
  fail_if (str_eq event "approved" && exceeds ops (policy ws db).approval_limit o.subtotal) conflict
  ok (record db {
    orders =
        update_rows (λ x. is_order ws o.id x && is_draft x.status)
          (decided_row now next kind actor note db.vendors) db.orders;
    order_events = db.order_events ++ decision_event ops ws o event actor kind note ∷ [];
  })

-- `order_json`: the order joined with its vendor.
unfoldable pub order_json : String → ℕ → Db → Result Order
order_json ws id db = do
  o ← ok_or (find_row (is_order ws id) db.orders) not_found
  v ← ok_or (find_row (is_vendor ws o.vendor_id) db.vendors) not_found
  ok o

pub record Decision : Type 0 where
  pub order : Order
  pub changed : Bool

finish_decision : String → ℕ → Bool → Db → Result (Decision × Db)
unfolding order_json
finish_decision ws id changed db = do
  o ← order_json ws id db
  ok (record { order = o; changed = changed }, db)

unfoldable pub decide_versioned :
    Arithmetic
    → ℕ
    → String
    → ℕ
    → Action
    → String
    → Option String
    → Option ℕ
    → Db
    → Result (Decision × Db)
unfolding policy transition apply_decision finish_decision
decide_versioned ops now ws id action actor note expected db = do
  o ← ok_or (find_row (is_order ws id) db.orders) not_found
  fail_if (is_draft o.status && stale expected o.version) conflict
  t ← transition action o.status
  elim t.2 [
    | none ↦ finish_decision ws id false db
    | some event ↦ do
      db' ← apply_decision ops now ws o t.0 t.1 event actor (kept_note note) db
      finish_decision ws id true db'
  ]

unfoldable pub decide :
    Arithmetic → ℕ → String → ℕ → Action → String → Option String → Db → Result (Decision × Db)
unfolding decide_versioned
decide ops now ws id action actor note db = decide_versioned ops now ws id action actor note none db
