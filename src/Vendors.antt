-- ===== src/Vendors.antt =====
-- src/vendors.rs: supplier records, ordering rules and the purchasing policy.
pub mod Records
pub mod Rules
pub mod Policies
mod Tests
use Prim.Native.String.{count as chars}
use backhaus_ai_backend.Base.{
  ℕ, ◌+◌, Bool, true, false, not, ◌&&◌, ◌||◌, Option, none, some, List, [], ◌∷◌, ◌++◌, String,
  str_eq, ltb, ◌==◌, if◌then◌else◌, find_row, update_rows, any_row, delete_rows,
}
use backhaus_ai_backend.Base.Result.{
  Result, ok, err, invalid, not_found, conflict, ◌>>=◌, ◌>>◌, fail_if, ok_or,
}
use backhaus_ai_backend.Base.Text.{trim, is_empty, any_char, is_whitespace}
use backhaus_ai_backend.Base.Json.{Json, null, string, object, field, end}
use backhaus_ai_backend.Decimal.{Decimal, Arithmetic, whole, le}
use backhaus_ai_backend.Store.{Db}
use backhaus_ai_backend.Store.Orders.{Vendor, VendorItem, PolicyRow, ConfigEvent}
use backhaus_ai_backend.Store.Stock.{Item}
use backhaus_ai_backend.Purchasing.{is_vendor}
use backhaus_ai_backend.Inventory.{is_item}

pub record VendorInput : Type 0 where
  pub name : String
  pub contact_name : Option String
  pub email : Option String
  pub phone : Option String
  pub notes : Option String
  pub version : Option ℕ

pub record RuleInput : Type 0 where
  pub supplier_reference : Option String
  pub order_unit : String
  pub units_per_pack : Decimal
  pub pack_price : Option Decimal
  pub minimum_order_quantity : Decimal
  pub reorder_target : Option Decimal
  pub version : Option ℕ

pub record PolicyInput : Type 0 where
  pub auto_approve_limit : Decimal
  pub approval_limit : Option Decimal
  pub version : ℕ

pub record VendorFields : Type 0 where
  pub name : String
  pub contact : Option String
  pub email : Option String
  pub phone : Option String
  pub notes : Option String

unfoldable pub text : Option String → ℕ → Result (Option String)
text none most = ok none
text (some s) most =
    let v = trim s in
    if is_empty v then ok none else if ltb most (chars v) then err invalid else ok (some v)

abbrev is_odd_email : Option String → Bool
is_odd_email none = false
is_odd_email (some e) = not (any_char (λ c. c == 64) e) || any_char is_whitespace e

unfoldable pub validate_vendor : VendorInput → Result VendorFields
validate_vendor input = do
  let name = trim input.name
  fail_if (is_empty name || ltb 200 (chars name)) invalid
  email ← text input.email 200
  fail_if (is_odd_email email) invalid
  contact ← text input.contact_name 120
  phone ← text input.phone 50
  notes ← text input.notes 1000
  ok (record { name = name; contact = contact; email = email; phone = phone; notes = notes })

abbrev pub or_fails : (Decimal → Bool) → Option Decimal → Bool
or_fails bad none = false
or_fails bad (some d) = bad d

abbrev too_long : Option String → Bool
too_long none = false
too_long (some s) = ltb 80 (chars s)

unfoldable pub validate_rule : Arithmetic → RuleInput → Result (Unit {0})
validate_rule ops input = do
  fail_if (is_empty (trim input.order_unit) || ltb 60 (chars (trim input.order_unit))) invalid
  fail_if
      (le ops input.units_per_pack (whole 0)
        || ops.lt (whole 1000000) input.units_per_pack
        || ltb 3 input.units_per_pack.scale)
      invalid
  fail_if
      (or_fails
        (λ price. ops.lt price (whole 0) || ops.lt (whole 1000000000) price || ltb 2 price.scale)
        input.pack_price)
      invalid
  fail_if
      (le ops input.minimum_order_quantity (whole 0)
        || ltb 0 input.minimum_order_quantity.scale
        || ops.lt (whole 100000) input.minimum_order_quantity)
      invalid
  fail_if
      (or_fails
        (λ target. le ops target (whole 0) || ltb 3 target.scale || ops.lt (whole 1000000) target)
        input.reorder_target)
      invalid
  fail_if (too_long input.supplier_reference) invalid

-- purchasing::ACTOR_DASHBOARD
abbrev actor_dashboard : String
actor_dashboard = "dashboard-operator"

unfoldable pub audit : String → String → String → String → Json → Db → Db
audit ws entity entity_id action payload db = record db {
  config_events =
      db.config_events
      ++ record {
        workspace = ws;
        entity = entity;
        entity_id = entity_id;
        action = action;
        actor = actor_dashboard;
        payload = payload;
      }
        ∷ [];
}

abbrev pub option_json : Option String → Json
option_json none = null
option_json (some s) = string s

abbrev pub printed : Arithmetic → Option Decimal → Json
printed ops none = null
printed ops (some d) = string (ops.print d)
