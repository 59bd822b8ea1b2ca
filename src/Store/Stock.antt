-- ===== src/Store/Stock.antt =====
-- The tables of the inventory.
use backhaus_ai_backend.Base.{ℕ, Option, String}
use backhaus_ai_backend.Decimal.{Decimal}

pub record Item : Type 0 where
  pub workspace : String
  pub id : String
  pub name : String
  pub unit : Option String
  pub par_level : Option Decimal
  pub current_balance : Decimal
  pub supplier : Option String

-- movement_type
pub data MovementType : Type 0 where
  issue received count : MovementType

pub record Movement : Type 0 where
  pub workspace : String
  pub id : ℕ
  pub item_id : String
  pub business_date : ℕ
  pub movement_type : MovementType
  pub quantity_delta : Decimal
  pub request_key : String
  pub reason : String
  pub balance_after : Decimal

pub data StockStatus : Type 0 where
  out_of_stock below_par in_stock par_not_set : StockStatus

-- The response that a request is answered with, and that is stored for its key.
pub record Response : Type 0 where
  pub movement_id : ℕ
  pub movement_type : MovementType
  pub date : ℕ
  pub quantity : Decimal
  pub reason : String
  pub item_id : String
  pub name : String
  pub unit : Option String
  pub balance : Decimal
  pub previous_balance : Decimal
  pub par_level : Option Decimal
  pub status : StockStatus

-- inventory_movement_requests; the hash is a text
pub record MovementKey : Type 0 where
  pub workspace : String
  pub request_key : String
  pub request_hash : String
  pub movement_id : ℕ
  pub response : Response
