-- ===== src/Vendors/Tests.antt =====
-- The theorems on suppliers, rules and limits at concrete inputs.
use backhaus_ai_backend.Base.{ℕ, ◌≡◌, refl, true, false, none, some, [], ◌∷◌, find_row, String, All}
use backhaus_ai_backend.Base.Int.{◌*ℤ◌}
use backhaus_ai_backend.Base.Result.{ok, err}
use backhaus_ai_backend.Base.Text.{trim}
use backhaus_ai_backend.Decimal.{whole, value, unit, le}
use backhaus_ai_backend.Decimal.Exact.{exact}
use backhaus_ai_backend.Store.{Db, empty_db}
use backhaus_ai_backend.Store.Orders.{Vendor, VendorItem}
use backhaus_ai_backend.Store.Stock.{Item}
use backhaus_ai_backend.Purchasing.{policy}
use backhaus_ai_backend.Vendors.{VendorInput, RuleInput, PolicyInput, validate_rule, text}
use backhaus_ai_backend.Vendors.Records.{create, update}
use backhaus_ai_backend.Vendors.Records.Names.{IsRegister, create-IsRegister, update-IsRegister}
use backhaus_ai_backend.Vendors.Rules.{assign, unassign_versioned, is_rule, preferred_elsewhere}
use backhaus_ai_backend.Vendors.Rules.Assigned.{IsSaved}
use backhaus_ai_backend.Vendors.Rules.Preferred.{IsCatalogue, assign-IsCatalogue, assign_prefers}
use backhaus_ai_backend.Vendors.Policies.{update_policy, validate_policy}
use backhaus_ai_backend.Vendors.Policies.Saved.{policy_saved, limits_ordered}

abbrev shown : ℕ → String
shown _ = "id"

abbrev same_case : String → String
same_case s = s

abbrev mills : VendorInput
mills = record {
  name = " Mills ";
  contact_name = none;
  email = some "a@b";
  phone = none;
  notes = none;
  version = some 1;
}

abbrev farms_row : Vendor
farms_row = record {
  workspace = "w";
  id = 2;
  name = "Farms";
  contact_name = none;
  email = none;
  phone = none;
  notes = none;
  research_status = "unreviewed";
  version = 1;
  updated_at = 0;
}

abbrev mills_row : Vendor
mills_row = record {
  workspace = "w";
  id = 1;
  name = "Mills";
  contact_name = none;
  email = some "a@b";
  phone = none;
  notes = none;
  research_status = "unreviewed";
  version = 1;
  updated_at = 5;
}

abbrev farms_db : Db
farms_db = record empty_db { vendors = farms_row ∷ [] }

abbrev created : Vendor × Db
created = elim (create same_case shown 5 1 "w" mills farms_db farms_db) [
  | ok r ↦ r
  | err _ ↦ (farms_row, empty_db)
]

created_ok : create same_case shown 5 1 "w" mills farms_db farms_db ≡ ok created
unfolding create text trim
created_ok = refl

create-IsRegister_example : IsRegister same_case created.1.vendors
create-IsRegister_example =
    create-IsRegister same_case shown 5 1 "w" mills created.0 farms_db farms_db created.1 refl refl
      (tt, tt) created_ok

abbrev renamed : VendorInput
renamed = record mills { name = "Miller" }

abbrev updated : Vendor × Db
updated = elim (update same_case shown shown 9 1 "w" renamed created.1 created.1) [
  | ok r ↦ r
  | err _ ↦ (farms_row, empty_db)
]

updated_ok : update same_case shown shown 9 1 "w" renamed created.1 created.1 ≡ ok updated
unfolding create update text trim
updated_ok = refl

update-IsRegister_example : IsRegister same_case updated.1.vendors
update-IsRegister_example =
    update-IsRegister same_case shown shown 9 1 "w" renamed updated.0 created.1 created.1 updated.1
      refl
      (create-IsRegister same_case shown 5 1 "w" mills created.0 farms_db farms_db created.1 refl
        refl (tt, tt) created_ok)
      updated_ok

abbrev rice : Item
rice = record {
  workspace = "w";
  id = "rice";
  name = "Rice";
  unit = some "kg";
  par_level = some (whole 20);
  current_balance = whole 30;
  supplier = none;
}

abbrev rice_rule : VendorItem
rice_rule = record {
  workspace = "w";
  item_id = "rice";
  vendor_id = 2;
  supplier_reference = none;
  order_unit = "bag";
  units_per_pack = whole 12;
  pack_price = none;
  minimum_order_quantity = whole 1;
  reorder_target = none;
  preferred = true;
  version = 1;
  updated_at = 0;
}

abbrev bag : RuleInput
bag = record {
  supplier_reference = some " R-1 ";
  order_unit = "bag";
  units_per_pack = whole 10;
  pack_price = some (whole 900);
  minimum_order_quantity = whole 2;
  reorder_target = some (whole 60);
  version = none;
}

abbrev rules_db : Db
rules_db = record empty_db {
  vendors = mills_row ∷ farms_row ∷ [];
  items = rice ∷ [];
  vendor_items = rice_rule ∷ [];
}

abbrev assigned : VendorItem × Db
assigned = elim (assign exact shown 7 "w" 1 "rice" bag rules_db) [
  | ok r ↦ r
  | err _ ↦ (rice_rule, empty_db)
]

assigned_ok : assign exact shown 7 "w" 1 "rice" bag rules_db ≡ ok assigned
unfolding assign validate_rule text trim value unit ◌*ℤ◌
assigned_ok = refl

assign-IsCatalogue_example : IsCatalogue assigned.1.vendor_items
assign-IsCatalogue_example =
    assign-IsCatalogue exact shown 7 "w" 1 "rice" bag assigned.0 rules_db assigned.1 (tt, tt)
      assigned_ok

assign_prefers_example :
    IsSaved "w" 1 "rice" bag assigned.0
    × (find_row (is_rule "w" 1 "rice") assigned.1.vendor_items ≡ some assigned.0)
    × All (λ x. preferred_elsewhere "w" "rice" 1 x ≡ false) assigned.1.vendor_items
assign_prefers_example =
    assign_prefers exact shown 7 "w" 1 "rice" bag assigned.0 rules_db assigned.1 assigned_ok

abbrev unassigned : Db
unassigned = elim (unassign_versioned exact shown "w" 1 "rice" (some 1) assigned.1) [
  | ok r ↦ r.1
  | err _ ↦ empty_db
]

unassigned_ok :
    unassign_versioned exact shown "w" 1 "rice" (some 1) assigned.1 ≡ ok (tt, unassigned)
unfolding assign unassign_versioned validate_rule text trim value unit ◌*ℤ◌
unassigned_ok = refl

abbrev limits : PolicyInput
limits = record { auto_approve_limit = whole 100; approval_limit = some (whole 500); version = 0 }

abbrev limits_db : Db
limits_db = elim (update_policy exact 3 "w" limits empty_db) [ ok d ↦ d | err _ ↦ empty_db ]

limits_ok : update_policy exact 3 "w" limits empty_db ≡ ok limits_db
unfolding update_policy validate_policy value unit ◌*ℤ◌
limits_ok = refl

limits_valid : validate_policy exact limits ≡ ok tt
unfolding validate_policy value unit ◌*ℤ◌
limits_valid = refl

policy_saved_example :
    policy "w" limits_db
    ≡ record { auto_approve_limit = whole 100; approval_limit = some (whole 500) }
policy_saved_example = policy_saved exact 3 "w" limits empty_db limits_db limits_ok

limit_stored : (policy "w" limits_db).approval_limit ≡ some (whole 500)
unfolding policy update_policy validate_policy value unit ◌*ℤ◌
limit_stored = refl

limits_ordered_example : le exact (policy "w" limits_db).auto_approve_limit (whole 500) ≡ true
limits_ordered_example =
    limits_ordered exact 3 "w" limits empty_db limits_db limits_ok (whole 500) limit_stored
