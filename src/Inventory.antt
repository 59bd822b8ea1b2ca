-- ===== src/Inventory.antt =====
-- src/inventory.rs: stock movements recorded through the dashboard. One call of `record` is one
-- transaction: the advisory lock on the key and the row lock on the item serialise competing calls.
pub mod Requests
pub mod Balance
mod Tests
use Prim.Native.String.{count as chars, len as bytes}
use backhaus_ai_backend.Base.{
  ℕ, ◌+◌, ◌-◌, ◌*◌, ◌/◌, ◌%◌, Bool, true, false, not, ◌&&◌, ◌||◌, Option, none, some, List, [], ◌∷◌,
  ◌++◌, String, str_eq, ltb, length, if◌then◌else◌, find_row, update_rows,
}
use backhaus_ai_backend.Base.Result.{
  Result, ok, err, invalid, not_found, conflict, ◌>>=◌, ◌>>◌, fail_if, ok_or,
}
use backhaus_ai_backend.Base.Text.{trim, is_empty}
use backhaus_ai_backend.Base.Json.{Json, null, string, object, field, end}
use backhaus_ai_backend.Decimal.{Decimal, Arithmetic, whole, le, eq_of}
use backhaus_ai_backend.Store.{Db}
use backhaus_ai_backend.Store.Stock.{
  Item, Movement, MovementType, MovementKey, Response, StockStatus, out_of_stock, below_par,
  in_stock, par_not_set,
}

pub data MovementKind : Type 0 where
  issue receipt count : MovementKind

pub record MovementRequest : Type 0 where
  pub kind : MovementKind
  pub quantity : Decimal
  pub reason : String
  pub expected_balance : Option Decimal

-- The sales day in Lagos, as a count of days, for a time in microseconds of UTC. Times before the
-- epoch are left out.
unfoldable pub business_date_now : ℕ → ℕ
business_date_now now =
    let lagos = now + 3600000000 in
    let day = lagos / 86400000000 in
    if ltb (lagos % 86400000000 / 3600000000) 6 then day - 1 else day

unfoldable pub validate : Arithmetic → MovementRequest → Result (Unit {0})
validate ops r = do
  fail_if (is_empty (trim r.reason) || ltb 200 (chars (trim r.reason))) invalid
  fail_if (ltb 3 r.quantity.scale) invalid
  fail_if (ops.lt (whole 1000000) r.quantity) invalid
  fail_if (elim r.kind [ count ↦ ops.lt r.quantity (whole 0) | _ ↦ le ops r.quantity (whole 0) ])
      invalid

abbrev kind_text : MovementKind → String
kind_text issue = "issue"
kind_text receipt = "receipt"
kind_text count = "count"

abbrev pub show_option : Arithmetic → Option Decimal → Json
show_option ops none = null
show_option ops (some d) = string (ops.show d)

-- The text that is hashed.
unfoldable pub request_body : Arithmetic → String → MovementRequest → Json
request_body ops item r = object (
    field "item" (string item) (
      field "type" (string (kind_text r.kind)) (
        field "quantity" (string (ops.show r.quantity)) (
          field "reason" (string (trim r.reason))
            (field "expected_balance" (show_option ops r.expected_balance) end)))))

abbrev pub is_item : String → String → Item → Bool
is_item ws id i = str_eq i.workspace ws && str_eq i.id id

abbrev pub is_key : String → String → MovementKey → Bool
is_key ws key k = str_eq k.workspace ws && str_eq k.request_key key

unfoldable pub movement_type : MovementKind → MovementType
movement_type issue = MovementType.issue
movement_type receipt = MovementType.received
movement_type count = MovementType.count

unfoldable pub delta_of : Arithmetic → MovementRequest → Decimal → Decimal
delta_of ops r current = elim r.kind [
  | issue ↦ ops.neg r.quantity
  | receipt ↦ r.quantity
  | count ↦ ops.sub r.quantity current
]

unfoldable pub status_of : Arithmetic → Option Decimal → Decimal → StockStatus
status_of ops par balance = if le ops balance (whole 0) then out_of_stock else (elim par [
  | none ↦ par_not_set
  | some p ↦
      if ops.lt (whole 0) p then (if ops.lt balance p then below_par else in_stock) else par_not_set
])

abbrev pub balanced : Decimal → Item → Item
balanced b i = record i { current_balance = b }

-- `json!({... "reused": …})` beside the stored response.
pub record Recorded : Type 0 where
  pub response : Response
  pub reused : Bool

abbrev pub movement_row : Arithmetic → ℕ → ℕ → String → String → MovementRequest → Item → Movement
movement_row ops now id ws key r i =
    let delta = delta_of ops r i.current_balance in
    record {
      workspace = ws;
      id = id;
      item_id = i.id;
      business_date = business_date_now now;
      movement_type = movement_type r.kind;
      quantity_delta = delta;
      request_key = key;
      reason = trim r.reason;
      balance_after = ops.add i.current_balance delta;
    }

abbrev pub response_of : Arithmetic → ℕ → ℕ → MovementRequest → Item → Response
response_of ops now id r i =
    let delta = delta_of ops r i.current_balance in
    let balance = ops.add i.current_balance delta in
    record {
      movement_id = id;
      movement_type = movement_type r.kind;
      date = business_date_now now;
      quantity = delta;
      reason = trim r.reason;
      item_id = i.id;
      name = i.name;
      unit = i.unit;
      balance = balance;
      previous_balance = i.current_balance;
      par_level = i.par_level;
      status = status_of ops i.par_level balance;
    }

abbrev pub key_row : ℕ → String → String → String → Response → MovementKey
key_row id ws key hash response = record {
  workspace = ws;
  request_key = key;
  request_hash = hash;
  movement_id = id;
  response = response;
}

-- What a first use of the key does, the item being locked.
unfoldable pub apply_movement :
    Arithmetic
    → ℕ
    → ℕ
    → String
    → String
    → String
    → MovementRequest
    → Item
    → Db
    → Result (Recorded × Db)
apply_movement ops now id ws key hash r i db = do
  fail_if (elim r.expected_balance [ none ↦ false | some b ↦ not (eq_of ops b i.current_balance) ])
      conflict
  fail_if (ops.lt (ops.add i.current_balance (delta_of ops r i.current_balance)) (whole 0)) invalid
  let response = response_of ops now id r i
  ok (
    record { response = response; reused = false },
    record db {
      movements = db.movements ++ movement_row ops now id ws key r i ∷ [];
      items =
          update_rows (is_item ws i.id)
            (balanced (ops.add i.current_balance (delta_of ops r i.current_balance))) db.items;
      movement_requests = db.movement_requests ++ key_row id ws key hash response ∷ [];
    },
  )

-- `hash` is the SHA-256 of the printed body in hexadecimal.
module _ (ops : Arithmetic) (hash : Json → String) where
  unfoldable pub record_movement :
      ℕ → ℕ → String → String → String → MovementRequest → Db → Result (Recorded × Db)
  unfolding apply_movement
  record_movement now id ws item key r db = do
    fail_if (is_empty key || ltb 128 (bytes key)) invalid
    validate ops r
    let h = hash (request_body ops item r)
    i ← ok_or (find_row (is_item ws item) db.items) not_found
    elim (find_row (is_key ws key) db.movement_requests) [
      | none ↦ apply_movement ops now id ws key h r i db
      | some k ↦ do
        fail_if (not (str_eq k.request_hash h)) conflict
        ok (record { response = k.response; reused = true }, db)
    ]
