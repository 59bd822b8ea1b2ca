-- ===== src/Store.antt =====
-- The database, as the migrations under migrations/ lay it out: a record of tables, each a list of
-- rows. Identifiers that the code draws with `Uuid::new_v4` are numbers, a timestamp is a number
-- of microseconds, and a NULL is `none`. Columns that no modelled statement reads or writes are
-- left out.
pub mod Runs
pub mod Orders
pub mod Stock
pub mod Outreach
pub use Runs.*
use backhaus_ai_backend.Base.{List, []}
use Orders.{Vendor, VendorItem, PolicyRow, Order, OrderEvent, ConfigEvent, LineRow, Counter}
use Stock.{Item, Movement, MovementKey}

pub record Db : Type 0 where
  pub runs : List RunRow
  pub events : List EventRow
  pub conversations : List Conversation
  pub agents : List ScopedAgent
  pub revisions : List DataRevision
  pub checks : List CheckRow
  pub monitors : List Monitor
  pub items : List Item
  pub movements : List Movement
  pub movement_requests : List MovementKey
  pub vendors : List Vendor
  pub vendor_items : List VendorItem
  pub policies : List PolicyRow
  pub config_events : List ConfigEvent
  pub orders : List Order
  pub order_events : List OrderEvent
  pub order_lines : List LineRow
  pub counters : List Counter

abbrev pub empty_db : Db
empty_db = record {
  runs = [];
  events = [];
  conversations = [];
  agents = [];
  revisions = [];
  checks = [];
  monitors = [];
  items = [];
  movements = [];
  movement_requests = [];
  vendors = [];
  vendor_items = [];
  policies = [];
  config_events = [];
  orders = [];
  order_events = [];
  order_lines = [];
  counters = [];
}
