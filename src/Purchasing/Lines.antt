-- ===== src/Purchasing/Lines.antt =====
-- src/purchasing.rs: the lines of an order, their fingerprints, and the statements on the tables of
-- orders that the check of the stock shares.
use Prim.Native.String.{◌++◌ as str_append, len}
use backhaus_ai_backend.Base.{
  ℕ, ◌+◌, Bool, ◌&&◌, none, some, List, [], ◌∷◌, ◌++◌, String, str_eq, ltb, ◌==◌, if◌then◌else◌,
  find_row, rows_where, update_rows, delete_rows, map, take,
}
use backhaus_ai_backend.Base.Json.{Json, string, Items, nil, cons, object, field, end}
use backhaus_ai_backend.Decimal.{Decimal, Arithmetic, Rounding}
use backhaus_ai_backend.Store.{Db}
use backhaus_ai_backend.Store.Orders.{Line, LineRow, Counter}
use backhaus_ai_backend.Purchasing.{text_json}

abbrev pub actor_agent : String
actor_agent = "inventory-agent"

unfoldable pub money : Rounding → Decimal → Decimal
money r d = r.round_dp 2 d

unfoldable pub quantity : Rounding → Decimal → Decimal
quantity r d = r.normalize (r.round_dp 3 d)

abbrev pub items_of : List Json → Items
items_of [] = nil
items_of (j ∷ js) = cons j (items_of js)

unfoldable pub line_json : Arithmetic → Line → Json
line_json ops l = object (
    field "item_id" (string l.item_id) (
      field "item" (string l.item_name) (
        field "supplier_reference" (text_json l.supplier_reference) (
          field "order_unit" (string l.order_unit) (
            field "units_per_pack" (string (ops.print l.units_per_pack)) (
              field "quantity_packs" (string (ops.print l.quantity_packs)) (
                field "quantity_units" (string (ops.print l.quantity_units)) (
                  field "pack_price" (string (ops.print l.pack_price)) (
                    field "line_total" (string (ops.print l.line_total)) (
                      field "current_balance" (string (ops.print l.current_balance)) (
                        field "par_level" (string (ops.print l.par_level)) (
                          field "reorder_target" (string (ops.print l.reorder_target)) (
                            field "on_order_units" (string (ops.print l.on_order_units))
                              end)))))))))))))

-- A decimal goes into the fingerprint as its printed text, parsed and printed again without trailing
-- zeros: `show` of the decimal, since a printed decimal is parsed as itself.
unfoldable pub line_fingerprint : Arithmetic → Line → Json
line_fingerprint ops l = object (
    field "item_id" (string l.item_id) (
      field "order_unit" (string l.order_unit) (
        field "supplier_reference" (text_json l.supplier_reference) (
          field "quantity_packs" (string (ops.show l.quantity_packs)) (
            field "pack_price" (string (ops.show l.pack_price)) (
              field "units_per_pack" (string (ops.show l.units_per_pack)) (
                field "quantity_units" (string (ops.show l.quantity_units)) (
                  field "current_balance" (string (ops.show l.current_balance)) (
                    field "par_level" (string (ops.show l.par_level)) (
                      field "reorder_target" (string (ops.show l.reorder_target))
                        (field "on_order_units" (string (ops.show l.on_order_units)) end)))))))))))

unfoldable pub describe_reason : String → String
describe_reason reason =
    if str_eq reason "exceeds_approval_limit"
    then "Total exceeds the configured approval limit; raise the limit in purchasing policy before approving"
    else if str_eq reason "vendor_details_incomplete"
    then "Vendor details are incomplete; review before approving"
    else if str_eq reason "within_auto_approval_limit"
    then "Approved automatically: total is within the automatic approval limit"
    else if str_eq reason "exceeds_auto_approval_limit"
    then "Total exceeds the automatic approval limit and needs your approval"
    else if str_eq reason "manual_approval_required"
    then "Automatic approval is disabled; every order needs your approval"
    else "Needs your approval"

abbrev has_counter : String → Counter → Bool
has_counter ws c = str_eq c.workspace ws

-- `{number:04}`
abbrev padded : String → String
padded s =
    if ltb (len s) 2
    then str_append "000" s
    else if ltb (len s) 3
    then str_append "00" s
    else if ltb (len s) 4
    then str_append "0" s
    else s

-- The number of a new order; `show` prints a number.
unfoldable pub next_number : (ℕ → String) → String → Db → String × Db
next_number show ws db = elim (find_row (has_counter ws) db.counters) [
  | none ↦ (
    str_append "PO-" (padded (show 1)),
    record db { counters = db.counters ++ record { workspace = ws; next_number = 2 } ∷ [] },
  )
  | some c ↦ (
    str_append "PO-" (padded (show c.next_number)),
    record db {
      counters =
          update_rows (has_counter ws) (λ x. record x { next_number = x.next_number + 1 })
            db.counters;
    },
  )
]

abbrev number_lines : String → ℕ → ℕ → List Line → List LineRow
number_lines ws order position [] = []
number_lines ws order position (l ∷ ls) =
    record { order_id = order; workspace = ws; position = position; line = l }
    ∷ number_lines ws order (position + 1) ls

unfoldable pub insert_lines : String → ℕ → List Line → Db → Db
insert_lines ws order lines db = record db {
  order_lines =
      delete_rows (λ l. l.order_id == order) db.order_lines ++ number_lines ws order 1 lines;
}

unfoldable pub record_event : String → ℕ → String → String → Json → Db → Db
record_event ws order event actor payload db = record db {
  order_events =
      db.order_events
      ++ record {
        order_id = order;
        workspace = ws;
        event_type = event;
        actor = actor;
        payload = payload;
      }
        ∷ [];
}

-- The lines of an order, in the order of their positions, which is the order that they are inserted in.
unfoldable pub lines_of : String → ℕ → ℕ → Db → List Line
lines_of ws order limit db = take limit (
    map (λ l. l.line)
      (rows_where (λ l. l.order_id == order && str_eq l.workspace ws) db.order_lines))
