-- ===== src/Store/Orders.antt =====
-- The tables of purchasing: vendors, vendor_items, purchasing_policies, purchase_orders and the two
-- audit trails.
use backhaus_ai_backend.Base.{ℕ, Bool, true, false, Option, String, List}
use backhaus_ai_backend.Base.Json.{Json}
use backhaus_ai_backend.Decimal.{Decimal}

pub data OrderStatus : Type 0 where
  draft approved rejected withdrawn : OrderStatus

pub data ApprovalKind : Type 0 where
  automatic manual : ApprovalKind

pub record Vendor : Type 0 where
  pub workspace : String
  pub id : ℕ
  pub name : String
  pub contact_name : Option String
  pub email : Option String
  pub phone : Option String
  pub notes : Option String
  pub research_status : String
  pub version : ℕ
  pub updated_at : ℕ

-- An ordering rule.
pub record VendorItem : Type 0 where
  pub workspace : String
  pub item_id : String
  pub vendor_id : ℕ
  pub supplier_reference : Option String
  pub order_unit : String
  pub units_per_pack : Decimal
  pub pack_price : Option Decimal
  pub minimum_order_quantity : Decimal
  pub reorder_target : Option Decimal
  pub preferred : Bool
  pub version : ℕ
  pub updated_at : ℕ

pub record PolicyRow : Type 0 where
  pub workspace : String
  pub auto_approve_limit : Decimal
  pub approval_limit : Option Decimal
  pub version : ℕ
  pub updated_at : ℕ

-- vendor_snapshot
pub record Contact : Type 0 where
  pub name : String
  pub contact_name : Option String
  pub email : Option String
  pub phone : Option String

pub record Order : Type 0 where
  pub id : ℕ
  pub workspace : String
  pub number : String
  pub vendor_id : ℕ
  pub status : OrderStatus
  pub approval_kind : Option ApprovalKind
  pub approval_reason : String
  pub subtotal : Decimal
  pub line_count : ℕ
  pub revision : ℕ
  pub version : ℕ
  pub decided_at : Option ℕ
  pub decided_by : Option String
  pub decision_note : Option String
  pub vendor_snapshot : Option Contact
  pub attention : List Json
  pub created_at : ℕ
  pub updated_at : ℕ

-- A line of an order, and the columns that the check of the stock writes with it.
pub record Line : Type 0 where
  pub item_id : String
  pub item_name : String
  pub supplier_reference : Option String
  pub order_unit : String
  pub units_per_pack : Decimal
  pub quantity_packs : Decimal
  pub quantity_units : Decimal
  pub pack_price : Decimal
  pub line_total : Decimal
  pub current_balance : Decimal
  pub par_level : Decimal
  pub reorder_target : Decimal
  pub on_order_units : Decimal

-- purchase_order_lines
pub record LineRow : Type 0 where
  pub order_id : ℕ
  pub workspace : String
  pub position : ℕ
  pub line : Line

-- purchase_order_counters
pub record Counter : Type 0 where
  pub workspace : String
  pub next_number : ℕ

-- purchase_order_events
pub record OrderEvent : Type 0 where
  pub order_id : ℕ
  pub workspace : String
  pub event_type : String
  pub actor : String
  pub payload : Json

-- purchasing_config_events
pub record ConfigEvent : Type 0 where
  pub workspace : String
  pub entity : String
  pub entity_id : String
  pub action : String
  pub actor : String
  pub payload : Json

abbrev pub is_draft : OrderStatus → Bool
is_draft draft = true
is_draft _ = false
