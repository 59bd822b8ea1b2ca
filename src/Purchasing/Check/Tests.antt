-- ===== src/Purchasing/Check/Tests.antt =====
-- The check of the stock at a concrete database: rice is below par and its vendor has a draft of an
-- earlier check; another draft is of a vendor that nothing is short for.
use backhaus_ai_backend.Base.{
  ℕ, ◌+◌, ◌≡◌, refl, true, false, none, some, List, [], ◌∷◌, String, arith, Memᴰ, any_row,
}
use backhaus_ai_backend.Base.Int.{◌+ℤ◌, ◌-ℤ◌, ◌*ℤ◌}
use backhaus_ai_backend.Decimal.{Rounding, whole, value, unit}
use backhaus_ai_backend.Decimal.Exact.{exact, thousandths, ceil_div}
use backhaus_ai_backend.Store.{Db, empty_db}
use backhaus_ai_backend.Store.Orders.{Vendor, VendorItem, Order, OrderStatus, draft, rejected}
use backhaus_ai_backend.Store.Stock.{Item}
use backhaus_ai_backend.Base.Result.{ok, err}
use backhaus_ai_backend.Purchasing.{
  policy, approval_reason, Decision, decide_versioned, decided_row, reject,
}
use backhaus_ai_backend.Purchasing.History.{
  OrderHistory, stop, call, checks, decides, Holds, history-Holds,
}
use backhaus_ai_backend.Purchasing.Lines.{quantity, money}
use backhaus_ai_backend.Purchasing.Shortages.{VendorGroup, shortages}
use backhaus_ai_backend.Purchasing.Drafts.{group_attention, revised, has_id, is_open}
use backhaus_ai_backend.Purchasing.Check.{prepare_drafts, propose}
use backhaus_ai_backend.Purchasing.Check.Tables.{IsOrderTable}
use backhaus_ai_backend.Purchasing.Check.Effects.{prepare_drafts_current}

-- Products keep all their decimals.
abbrev plain : Rounding
plain = record {
  mul = λ a b. record { mantissa = a.mantissa *ℤ b.mantissa; scale = a.scale + b.scale };
  round_dp = λ _ d. d;
  normalize = λ d. d;
}

abbrev rice : Item
rice = record {
  workspace = "ws";
  id = "rice";
  name = "Rice";
  unit = some "kg";
  par_level = some (whole 40);
  current_balance = whole 18;
  supplier = none;
}

abbrev farms : Vendor
farms = record {
  workspace = "ws";
  id = 2;
  name = "Farms";
  contact_name = none;
  email = some "a@b";
  phone = none;
  notes = none;
  research_status = "unreviewed";
  version = 1;
  updated_at = 0;
}

abbrev rice_rule : VendorItem
rice_rule = record {
  workspace = "ws";
  item_id = "rice";
  vendor_id = 2;
  supplier_reference = none;
  order_unit = "bag";
  units_per_pack = whole 12;
  pack_price = some (whole 500);
  minimum_order_quantity = whole 1;
  reorder_target = none;
  preferred = true;
  version = 1;
  updated_at = 0;
}

abbrev order_with : ℕ → String → ℕ → OrderStatus → Order
order_with id num vendor status = record {
  id = id;
  workspace = "ws";
  number = num;
  vendor_id = vendor;
  status = status;
  approval_kind = none;
  approval_reason = "manual_approval_required";
  subtotal = whole 100;
  line_count = 1;
  revision = 3;
  version = 1;
  decided_at = none;
  decided_by = none;
  decision_note = none;
  vendor_snapshot = none;
  attention = [];
  created_at = 0;
  updated_at = 0;
}

abbrev earlier : Order
earlier = order_with 1 "PO-0001" 2 draft

abbrev refused : Order
refused = order_with 3 "PO-0003" 7 rejected

abbrev stock_db : Db
stock_db = record empty_db {
  items = rice ∷ [];
  vendors = farms ∷ [];
  vendor_items = rice_rule ∷ [];
  orders = earlier ∷ order_with 2 "PO-0002" 5 draft ∷ refused ∷ [];
}

abbrev shown : ℕ → String
shown n = "1"

abbrev new_id : ℕ → ℕ
new_id v = v + 100

abbrev rice_group : VendorGroup
rice_group = record {
  vendor_id = 2;
  vendor_name = "Farms";
  contact_missing = false;
  lines =
      record {
        item_id = "rice";
        item_name = "Rice";
        supplier_reference = none;
        order_unit = "bag";
        units_per_pack = whole 12;
        quantity_packs = whole 2;
        quantity_units = whole 24;
        pack_price = whole 500;
        line_total = whole 1000;
        current_balance = whole 18;
        par_level = whole 40;
        reorder_target = whole 40;
        on_order_units = whole 0;
      }
      ∷ [];
}

abbrev rice_order : Order
rice_order = revised 900 (propose exact plain (policy "ws" stock_db) 4 rice_group).0 1 earlier

abbrev after : List Order
after = (prepare_drafts exact plain shown shown new_id 900 "ws" (λ is. is) 4 stock_db).1.orders

rice_order_mem : Memᴰ rice_order after
unfolding prepare_drafts policy ◌*ℤ◌ ◌+ℤ◌ ◌-ℤ◌ value unit thousandths ceil_div shortages
    approval_reason group_attention quantity money
rice_order_mem = Memᴰ.head refl

stock-IsOrderTable : IsOrderTable stock_db.orders
stock-IsOrderTable = ground arith

ids_fresh : (v : ℕ) → any_row (has_id (new_id v)) stock_db.orders ≡ false
ids_fresh v = ground arith

rice_open : is_open "ws" rice_order ≡ true
unfolding revised
rice_open = refl

prepare_drafts_current_example : rice_order.revision ≡ 4
prepare_drafts_current_example =
    prepare_drafts_current exact plain shown shown new_id 900 "ws" 4 (λ a b h. omega arith)
      (λ is. is) stock_db ids_fresh stock-IsOrderTable rice_order rice_order_mem rice_open

-- The operator rejects the draft, and the stock is checked again.
abbrev rejection : Decision × Db
rejection = elim (decide_versioned exact 800 "ws" 1 reject "owner" none none stock_db) [
  | ok x ↦ x
  | err _ ↦ (record { order = earlier; changed = false }, stock_db)
]

rejects : decide_versioned exact 800 "ws" 1 reject "owner" none none stock_db ≡ ok rejection
unfolding decide_versioned
rejects = refl

still_fresh : (v : ℕ) → any_row (has_id (new_id v)) rejection.1.orders ≡ false
unfolding decide_versioned decided_row
still_fresh v = ground arith

abbrev later_db : Db
later_db = (prepare_drafts exact plain shown shown new_id 900 "ws" (λ is. is) 4 rejection.1).1

busy_day : OrderHistory stock_db later_db
busy_day =
    call (call stop (decides exact 800 "ws" 1 reject "owner" none none rejection.0 rejects)) (
      checks exact plain shown shown new_id 900 "ws" (λ is. is) 4 (λ a b h. omega arith) still_fresh
        refl)

history-Holds_example : Holds stock_db.orders later_db.orders
history-Holds_example = history-Holds busy_day stock-IsOrderTable
