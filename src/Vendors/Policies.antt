-- ===== src/Vendors/Policies.antt =====
-- src/vendors.rs: the purchasing policy.
pub mod Saved
use backhaus_ai_backend.Base.{
  ℕ, ◌+◌, Bool, true, false, not, ◌&&◌, ◌||◌, Option, none, some, List, [], ◌∷◌, ◌++◌, String,
  str_eq, ltb, ◌==◌, if◌then◌else◌, find_row, update_rows, any_row, delete_rows, ◌≡◌, ◌≢◌, ◌⊎◌,
  refl, sym, ap, subst, ◌∙◌, inl, inr, arith, All, Pairs, Memᴰ, Bool-cases, Option-cases,
}
use backhaus_ai_backend.Base.Result.{
  Result, ok, err, invalid, not_found, conflict, ◌>>=◌, ◌>>◌, fail_if, ok_or,
}
use backhaus_ai_backend.Base.Text.{trim}
use Prim.Native.String.{◌++◌ as str_append}
use backhaus_ai_backend.Base.Json.{Json, null, string, object, field, end}
use backhaus_ai_backend.Decimal.{Decimal, Arithmetic, whole, le}
use backhaus_ai_backend.Store.{Db}
use backhaus_ai_backend.Store.Orders.{Vendor, VendorItem, PolicyRow, ConfigEvent}
use backhaus_ai_backend.Store.Stock.{Item}
use backhaus_ai_backend.Purchasing.{is_vendor}
use backhaus_ai_backend.Inventory.{is_item}
use backhaus_ai_backend.Vendors.{PolicyInput, audit, printed, or_fails}

-- A limit that is out of its bounds.
abbrev pub limit_invalid : Arithmetic → PolicyInput → Decimal → Bool
limit_invalid ops input limit =
    le ops limit (whole 0)
    || ltb 2 limit.scale
    || ops.lt (whole 1000000000) limit
    || ops.lt limit input.auto_approve_limit

unfoldable pub validate_policy : Arithmetic → PolicyInput → Result (Unit {0})
validate_policy ops input = do
  fail_if
      (ops.lt input.auto_approve_limit (whole 0)
        || ltb 2 input.auto_approve_limit.scale
        || ops.lt (whole 1000000000) input.auto_approve_limit)
      invalid
  fail_if (or_fails (limit_invalid ops input) input.approval_limit) invalid

abbrev pub has_policy : String → PolicyRow → Bool
has_policy ws r = str_eq r.workspace ws

unfoldable pub edited_policy : ℕ → PolicyInput → PolicyRow → PolicyRow
edited_policy now input r = record r {
  auto_approve_limit = input.auto_approve_limit;
  approval_limit = input.approval_limit;
  version = r.version + 1;
  updated_at = now;
}

abbrev pub new_policy : ℕ → String → PolicyInput → PolicyRow
new_policy now ws input = record {
  workspace = ws;
  auto_approve_limit = input.auto_approve_limit;
  approval_limit = input.approval_limit;
  version = 1;
  updated_at = now;
}

unfoldable pub save_policy : ℕ → String → PolicyInput → List PolicyRow → Result (List PolicyRow)
unfolding edited_policy
save_policy now ws input rows = elim (find_row (has_policy ws) rows) [
  | some r ↦ do
    fail_if (not (r.version == input.version)) conflict
    ok (update_rows (has_policy ws) (edited_policy now input) rows)
  | none ↦ do fail_if (not (input.version == 0)) conflict; ok (rows ++ new_policy now ws input ∷ [])
]

unfoldable pub update_policy : Arithmetic → ℕ → String → PolicyInput → Db → Result Db
unfolding validate_policy save_policy audit
update_policy ops now ws input db = do
  validate_policy ops input
  rows ← save_policy now ws input db.policies
  ok (
      audit ws "policy" ws "updated"
        (object (
          field "auto_approve_limit" (string (ops.print input.auto_approve_limit))
            (field "approval_limit" (printed ops input.approval_limit) end)))
        (record db { policies = rows }))
