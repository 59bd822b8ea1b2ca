-- ===== src/Vendors/Rules.antt =====
-- src/vendors.rs: the ordering rule of an item at a vendor, and the vendor that is preferred for it.
pub mod Assigned
pub mod Preferred
use backhaus_ai_backend.Base.{
  ℕ, ◌+◌, Bool, true, false, not, ◌&&◌, ◌||◌, Option, none, some, List, [], ◌∷◌, ◌++◌, String,
  str_eq, ltb, ◌==◌, if◌then◌else◌, find_row, update_rows, any_row, delete_rows, ◌≡◌, ◌≢◌, ◌⊎◌,
  refl, sym, ap, subst, ◌∙◌, inl, inr, arith, All, Pairs, Memᴰ, Bool-cases, Option-cases,
}
use backhaus_ai_backend.Base.Result.{
  Result, ok, err, invalid, not_found, conflict, ◌>>=◌, ◌>>◌, fail_if, ok_or,
}
use backhaus_ai_backend.Base.Text.{trim}
use Prim.Native.String.{◌++◌ as str_append}
use backhaus_ai_backend.Base.Json.{Json, null, string, object, field, end}
use backhaus_ai_backend.Decimal.{Decimal, Arithmetic, whole, le}
use backhaus_ai_backend.Store.{Db}
use backhaus_ai_backend.Store.Orders.{Vendor, VendorItem, PolicyRow, ConfigEvent}
use backhaus_ai_backend.Store.Stock.{Item}
use backhaus_ai_backend.Purchasing.{is_vendor}
use backhaus_ai_backend.Inventory.{is_item}
use backhaus_ai_backend.Vendors.{RuleInput, text, validate_rule, audit, option_json, printed}

-- The primary key of a rule, and the rows of an item whose vendor is preferred.
abbrev pub is_rule : String → ℕ → String → VendorItem → Bool
is_rule ws vendor item r = str_eq r.workspace ws && r.vendor_id == vendor && str_eq r.item_id item

abbrev pub preferred_for : String → String → VendorItem → Bool
preferred_for ws item r = str_eq r.workspace ws && str_eq r.item_id item && r.preferred

abbrev pub preferred_elsewhere : String → String → ℕ → VendorItem → Bool
preferred_elsewhere ws item vendor r =
    str_eq r.workspace ws && str_eq r.item_id item && not (r.vendor_id == vendor) && r.preferred

unfoldable pub unpreferred : ℕ → VendorItem → VendorItem
unpreferred now r = record r { preferred = false; version = r.version + 1; updated_at = now }

unfoldable pub saved_rule : ℕ → Option String → RuleInput → VendorItem → VendorItem
saved_rule now reference input r = record r {
  supplier_reference = reference;
  order_unit = trim input.order_unit;
  units_per_pack = input.units_per_pack;
  pack_price = input.pack_price;
  minimum_order_quantity = input.minimum_order_quantity;
  reorder_target = input.reorder_target;
  preferred = true;
  version = r.version + 1;
  updated_at = now;
}

unfoldable pub new_rule : ℕ → String → String → ℕ → Option String → RuleInput → VendorItem
new_rule now ws item vendor reference input = record {
  workspace = ws;
  item_id = item;
  vendor_id = vendor;
  supplier_reference = reference;
  order_unit = trim input.order_unit;
  units_per_pack = input.units_per_pack;
  pack_price = input.pack_price;
  minimum_order_quantity = input.minimum_order_quantity;
  reorder_target = input.reorder_target;
  preferred = true;
  version = 1;
  updated_at = now;
}

abbrev pub version_of : Option ℕ → ℕ
version_of none = 0
version_of (some v) = v

abbrev below_par : Arithmetic → Option Decimal → Option Decimal → Bool
below_par ops (some target) (some par) = ops.lt target par
below_par ops _ _ = false

-- The writes to vendor_items when the rule exists, the repeated release included.
unfoldable pub replace_rule :
    ℕ → String → String → ℕ → Option String → RuleInput → List VendorItem → List VendorItem
unfolding unpreferred saved_rule
replace_rule now ws item vendor reference input rules =
    update_rows (preferred_elsewhere ws item vendor) (unpreferred now) (
      update_rows (is_rule ws vendor item) (saved_rule now reference input)
        (update_rows (preferred_elsewhere ws item vendor) (unpreferred now) rules))

-- The writes when it does not.
unfoldable pub add_rule :
    ℕ → String → String → ℕ → Option String → RuleInput → List VendorItem → List VendorItem
unfolding unpreferred new_rule
add_rule now ws item vendor reference input rules =
    update_rows (preferred_for ws item) (unpreferred now) rules
    ++ new_rule now ws item vendor reference input ∷ []

unfoldable pub save_rule :
    ℕ
    → String
    → String
    → ℕ
    → Option String
    → RuleInput
    → List VendorItem
    → Result (List VendorItem × String)
unfolding replace_rule add_rule
save_rule now ws item vendor reference input rules =
    elim (find_row (is_rule ws vendor item) rules) [
      | some r ↦ do
        fail_if (not (version_of input.version == r.version)) conflict
        ok (replace_rule now ws item vendor reference input rules, "updated")
      | none ↦ do
        fail_if (not (version_of input.version == 0)) conflict
        ok (add_rule now ws item vendor reference input rules, "created")
    ]

abbrev vendor_name : String → ℕ → List Vendor → Option String
vendor_name ws vendor vs = elim (find_row (is_vendor ws vendor) vs) [
  | none ↦ none
  | some v ↦ some v.name
]

abbrev supplied : Option String → Item → Item
supplied s i = record i { supplier = s }

module _ (ops : Arithmetic) (show_id : ℕ → String) where
  abbrev rule_payload : RuleInput → Json
  rule_payload input = object (
      field "order_unit" (string (trim input.order_unit)) (
        field "units_per_pack" (string (ops.print input.units_per_pack)) (
          field "pack_price" (printed ops input.pack_price) (
            field "minimum_order_quantity" (string (ops.print input.minimum_order_quantity))
              (field "reorder_target" (printed ops input.reorder_target) end)))))

  unfoldable pub assign : ℕ → String → ℕ → String → RuleInput → Db → Result (VendorItem × Db)
  unfolding validate_rule text save_rule audit
  assign now ws vendor item input db = do
    validate_rule ops input
    fail_if (not (any_row (is_vendor ws vendor) db.vendors)) not_found
    i ← ok_or (find_row (is_item ws item) db.items) not_found
    fail_if (below_par ops input.reorder_target i.par_level) invalid
    reference ← text input.supplier_reference 80
    saved ← save_rule now ws item vendor reference input db.vendor_items
    let db' =
        audit ws "vendor_item" (str_append (show_id vendor) (str_append ":" item)) saved.1
          (rule_payload input)
          (record db {
            vendor_items = saved.0;
            items =
                update_rows (is_item ws item) (supplied (vendor_name ws vendor db.vendors))
                  db.items;
          })
    r ← ok_or (find_row (is_rule ws vendor item) db'.vendor_items) not_found
    ok (r, db')

  -- The name of the vendor that is preferred for an item, if one is left.
  preferred_name : String → String → List VendorItem → List Vendor → Option String
  preferred_name ws item rules vs = elim (find_row (preferred_for ws item) rules) [
    | none ↦ none
    | some r ↦ vendor_name ws r.vendor_id vs
  ]

  abbrev stale_rule : Option ℕ → ℕ → Bool
  stale_rule none version = false
  stale_rule (some v) version = not (v == version)

  unfoldable pub unassign_versioned : String → ℕ → String → Option ℕ → Db → Result (Unit {0} × Db)
  unfolding preferred_name audit
  unassign_versioned ws vendor item expected db = do
    r ← ok_or (find_row (is_rule ws vendor item) db.vendor_items) not_found
    fail_if (stale_rule expected r.version) conflict
    let rest = delete_rows (is_rule ws vendor item) db.vendor_items
    ok (
      tt,
      audit ws "vendor_item" (str_append (show_id vendor) (str_append ":" item)) "removed"
          (object end)
          (record db {
            vendor_items = rest;
            items =
                update_rows (is_item ws item) (supplied (preferred_name ws item rest db.vendors))
                  db.items;
          }),
    )

  unfoldable pub unassign : String → ℕ → String → Db → Result (Unit {0} × Db)
  unfolding unassign_versioned
  unassign ws vendor item db = unassign_versioned ws vendor item none db
