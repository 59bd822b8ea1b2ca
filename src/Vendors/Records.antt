-- ===== src/Vendors/Records.antt =====
-- src/vendors.rs: creating and editing a supplier. `lower` is the function of that name in Postgres,
-- `show_id` prints an identifier. The look at the names takes no lock, so another call may write between
-- it and the write: `seen` is the database at the look, `db` the one that is written.
pub mod Names
use backhaus_ai_backend.Base.{
  ℕ, ◌+◌, Bool, true, false, not, ◌&&◌, ◌||◌, Option, none, some, List, [], ◌∷◌, ◌++◌, String,
  str_eq, ltb, ◌==◌, if◌then◌else◌, find_row, update_rows, any_row, delete_rows, ◌≡◌, ◌≢◌, ◌⊎◌,
  refl, sym, ap, subst, ◌∙◌, inl, inr, arith, All, Pairs, Memᴰ, Bool-cases, Option-cases,
}
use backhaus_ai_backend.Base.Result.{
  Result, ok, err, invalid, not_found, conflict, database, ◌>>=◌, ◌>>◌, fail_if, ok_or,
}
use backhaus_ai_backend.Base.Text.{trim}
use Prim.Native.String.{◌++◌ as str_append}
use backhaus_ai_backend.Base.Json.{Json, null, number, string, object, field, end}
use backhaus_ai_backend.Decimal.{Decimal, Arithmetic, whole, le}
use backhaus_ai_backend.Store.{Db}
use backhaus_ai_backend.Store.Orders.{Vendor, VendorItem, PolicyRow, ConfigEvent}
use backhaus_ai_backend.Store.Stock.{Item}
use backhaus_ai_backend.Purchasing.{is_vendor}
use backhaus_ai_backend.Inventory.{is_item}
use backhaus_ai_backend.Vendors.{VendorInput, VendorFields, validate_vendor, audit, option_json}

abbrev pub has_name : (String → String) → String → String → Vendor → Bool
has_name lower ws name v = str_eq v.workspace ws && str_eq (lower v.name) (lower name)

-- UNIQUE (workspace_id,name)
abbrev pub has_exact_name : String → String → Vendor → Bool
has_exact_name ws name v = str_eq v.workspace ws && str_eq v.name name

unfoldable pub new_vendor : ℕ → ℕ → String → VendorFields → Vendor
new_vendor now id ws f = record {
  workspace = ws;
  id = id;
  name = f.name;
  contact_name = f.contact;
  email = f.email;
  phone = f.phone;
  notes = f.notes;
  research_status = "unreviewed";
  version = 1;
  updated_at = now;
}

unfoldable pub edited_vendor : ℕ → VendorFields → Vendor → Vendor
edited_vendor now f v = record v {
  name = f.name;
  contact_name = f.contact;
  email = f.email;
  phone = f.phone;
  notes = f.notes;
  version = v.version + 1;
  updated_at = now;
}

module _ (lower : String → String) (show_id : ℕ → String) where
  unfoldable pub create : ℕ → ℕ → String → VendorInput → Db → Db → Result (Vendor × Db)
  unfolding validate_vendor new_vendor audit
  create now id ws input seen db = do
    f ← validate_vendor input
    fail_if (any_row (has_name lower ws f.name) seen.vendors) conflict
    fail_if (any_row (has_exact_name ws f.name) db.vendors) database
    let db' =
        audit ws "vendor" (show_id id) "created"
          (object (
            field "name" (string f.name)
              (field "email" (option_json f.email) (field "phone" (option_json f.phone) end))))
          (record db { vendors = db.vendors ++ new_vendor now id ws f ∷ [] })
    v ← ok_or (find_row (is_vendor ws id) db'.vendors) not_found
    ok (v, db')

  unfoldable pub update :
      (ℕ → String) → ℕ → ℕ → String → VendorInput → Db → Db → Result (Vendor × Db)
  unfolding validate_vendor edited_vendor audit
  update show now id ws input seen db = do
    f ← validate_vendor input
    version ← ok_or input.version invalid
    current ← ok_or (find_row (is_vendor ws id) db.vendors) not_found
    fail_if (not (current.version == version)) conflict
    fail_if (any_row (λ v. has_name lower ws f.name v && not (v.id == id)) seen.vendors) conflict
    fail_if (any_row (λ v. has_exact_name ws f.name v && not (v.id == id)) db.vendors) database
    let db' =
        audit ws "vendor" (show_id id) "updated"
          (object (
            field "name" (string f.name) (
              field "email" (option_json f.email) (
                field "phone" (option_json f.phone)
                  (field "version" (number (show (version + 1))) end)))))
          (record db { vendors = update_rows (is_vendor ws id) (edited_vendor now f) db.vendors })
    v ← ok_or (find_row (is_vendor ws id) db'.vendors) not_found
    ok (v, db')
