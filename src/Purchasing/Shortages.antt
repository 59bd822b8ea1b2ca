-- ===== src/Purchasing/Shortages.antt =====
-- src/purchasing.rs, `prepare_drafts`: the items below par, and their lines by vendor.
use Prim.Native.Char.{nul}
use Prim.Native.Nat.Ordering.{lt}
use Prim.Native.String
use Prim.Native.String.{◌++◌ as str_append}
use backhaus_ai_backend.Base.{
  ℕ, ◌+◌, Bool, true, false, ◌&&◌, Option, none, some, List, [], ◌∷◌, ◌++◌, String, str_eq, ◌==◌,
  if◌then◌else◌, find_row, any_row, rows_where, map, take,
}
use backhaus_ai_backend.Base.Maps.{entry}
use backhaus_ai_backend.Base.Json.{Json, string, object, field, end}
use backhaus_ai_backend.Decimal.{Decimal, Arithmetic, Rounding, whole, le}
use backhaus_ai_backend.Store.{Db}
use backhaus_ai_backend.Store.Orders.{Vendor, VendorItem, Order, approved, Line}
use backhaus_ai_backend.Store.Stock.{Item}
use backhaus_ai_backend.Purchasing.{is_vendor}
use backhaus_ai_backend.Purchasing.Packs.{packs_to_order, order_target}
use backhaus_ai_backend.Purchasing.Lines.{money, quantity}

-- A row of the query: the item and its par level, the preferred rule with its vendor unless the vendor
-- is discarded, and the units on approved orders.
pub record ShortRow : Type 0 where
  pub item : Item
  pub par_level : Decimal
  pub supplier : Option (VendorItem × Vendor)
  pub on_order : Decimal

pub record VendorGroup : Type 0 where
  pub vendor_id : ℕ
  pub vendor_name : String
  pub contact_missing : Bool
  pub lines : List Line

abbrev pub preferred_rule : String → String → VendorItem → Bool
preferred_rule ws item r = str_eq r.workspace ws && str_eq r.item_id item && r.preferred

-- `CASE WHEN v.research_status='discarded' THEN NULL ELSE vi.vendor_id END`, with the joined rows
unfoldable pub supplier_of : String → String → Db → Option (VendorItem × Vendor)
supplier_of ws item db = elim (find_row (preferred_rule ws item) db.vendor_items) [
  | none ↦ none
  | some r ↦ elim (find_row (is_vendor ws r.vendor_id) db.vendors) [
    | none ↦ none
    | some v ↦ if str_eq v.research_status "discarded" then none else some (r, v)
  ]
]

abbrev is_approved : Order → Bool
is_approved o = elim o.status [ approved ↦ true | _ ↦ false ]

abbrev ordered_units : Arithmetic → List Decimal → Decimal
ordered_units ops [] = whole 0
ordered_units ops (d ∷ ds) = ops.add d (ordered_units ops ds)

unfoldable pub on_order : Arithmetic → String → String → Db → Decimal
on_order ops ws item db = ordered_units ops (
    map (λ l. l.line.quantity_units)
      (rows_where
        (λ l.
          str_eq l.workspace ws
          && str_eq l.line.item_id item
          && any_row (λ o. o.id == l.order_id && is_approved o) db.orders)
        db.order_lines))

-- An item of the workspace with a par level above zero that its balance is below.
abbrev pub below : Arithmetic → String → Item → Bool
below ops ws i =
    str_eq i.workspace ws
    && elim i.par_level [ none ↦ false | some p ↦ ops.lt (whole 0) p && ops.lt i.current_balance p ]

-- `par_level IS NULL OR par_level<=0`
abbrev pub unset : Arithmetic → String → Item → Bool
unset ops ws i =
    str_eq i.workspace ws && elim i.par_level [ none ↦ true | some p ↦ le ops p (whole 0) ]

abbrev pub par_of : Item → Decimal
par_of i = elim i.par_level [ none ↦ whole 0 | some p ↦ p ]

-- `collate` is ORDER BY name,id under the collation of the database.
unfoldable pub short_rows : Arithmetic → (List Item → List Item) → String → Db → List ShortRow
unfolding supplier_of on_order
short_rows ops collate ws db =
    map
      (λ i. record {
        item = i;
        par_level = par_of i;
        supplier = supplier_of ws i.id db;
        on_order = on_order ops ws i.id db;
      })
      (take 500 (collate (rows_where (below ops ws) db.items)))

abbrev attention_json : Item → String → String → Json
attention_json i reason detail = object (
    field "item_id" (string i.id) (
      field "item" (string i.name)
        (field "reason" (string reason) (field "detail" (string detail) end))))

-- What the loop over the rows collects.
pub record Sorted : Type 0 where
  pub attention : List Json
  pub covered : ℕ
  pub groups : List (String × VendorGroup)

abbrev noted : Json → Sorted → Sorted
noted j s = record s { attention = s.attention ++ j ∷ [] }

abbrev pub line_for : Arithmetic → Rounding → ShortRow → VendorItem → Decimal → Decimal → Line
line_for ops r row rule price packs = record {
  item_id = row.item.id;
  item_name = row.item.name;
  supplier_reference = rule.supplier_reference;
  order_unit = rule.order_unit;
  units_per_pack = rule.units_per_pack;
  quantity_packs = packs;
  quantity_units = quantity r (r.mul packs rule.units_per_pack);
  pack_price = price;
  line_total = money r (r.mul packs price);
  current_balance = row.item.current_balance;
  par_level = row.par_level;
  reorder_target = order_target ops row.par_level rule.reorder_target;
  on_order_units = row.on_order;
}

-- The key of a group: the vendor's name, a NUL and its identifier.
unfoldable pub group_key : (ℕ → String) → String → ℕ → String
group_key show_id name id = str_append name (String.◌∷◌ nul (show_id id))

abbrev pub key_before : String × VendorGroup → String × VendorGroup → Bool
key_before a b = elim (String.compare a.0 b.0) [ lt ↦ true | _ ↦ false ]

abbrev pub has_key : String → String × VendorGroup → Bool
has_key key g = str_eq g.0 key

abbrev pub with_line : Line → String × VendorGroup → String × VendorGroup
with_line l g = (g.0, record g.1 { lines = g.1.lines ++ l ∷ [] })

abbrev pub new_group : String → Vendor → Line → String × VendorGroup
new_group key v l = (
  key,
  record {
    vendor_id = v.id;
    vendor_name = v.name;
    contact_missing = elim v.email [
      | some _ ↦ false
      | none ↦ elim v.phone [ some _ ↦ false | none ↦ true ]
    ];
    lines = l ∷ [];
  },
)

unfoldable pub add_line :
    (ℕ → String) → Vendor → Line → List (String × VendorGroup) → List (String × VendorGroup)
unfolding group_key
add_line show_id v l groups =
    let key = group_key show_id v.name v.id in
    entry key_before (has_key key) (with_line l) (new_group key v l) groups

-- One round of the loop.
unfoldable pub sort_row : Arithmetic → Rounding → (ℕ → String) → ShortRow → Sorted → Sorted
unfolding add_line packs_to_order
sort_row ops r show_id row s = elim row.supplier [
  | none ↦ noted (attention_json row.item "no_vendor" "No vendor is assigned to this item") s
  | some (rule, v) ↦ elim rule.pack_price [
    | none ↦
        noted (attention_json row.item "no_price" "The vendor price for this item is not set") s
    | some price ↦
        elim (packs_to_order ops row.item.current_balance row.par_level rule.reorder_target
          row.on_order rule.units_per_pack rule.minimum_order_quantity) [
            | none ↦
                record (noted
                  (attention_json row.item "covered_by_open_order" (
                    str_append (ops.print (quantity r row.on_order))
                      " units are already on an approved order"))
                  s) { covered = s.covered + 1 }
            | some packs ↦ record s {
              groups = add_line show_id v (line_for ops r row rule price packs) s.groups;
            }
          ]
  ]
]

unfoldable pub sort_rows : Arithmetic → Rounding → (ℕ → String) → List ShortRow → Sorted → Sorted
unfolding sort_row
sort_rows ops r show_id [] s = s
sort_rows ops r show_id (row ∷ rows) s = sort_rows ops r show_id rows (sort_row ops r show_id row s)

unfoldable pub no_par : Arithmetic → (List Item → List Item) → String → Db → List Json
no_par ops collate ws db =
    map (λ i. attention_json i "no_par" "No par level is configured, so the shortage is unknown")
      (take 50 (collate (rows_where (unset ops ws) db.items)))

-- The rows sorted into what needs attention, what is covered, and the groups by vendor.
unfoldable pub shortages :
    Arithmetic → Rounding → (List Item → List Item) → (ℕ → String) → String → Db → Sorted
unfolding short_rows sort_rows no_par
shortages ops r collate show_id ws db =
    let s =
      sort_rows ops r show_id (short_rows ops collate ws db)
        (record { attention = []; covered = 0; groups = [] }) in
    record s { attention = s.attention ++ no_par ops collate ws db }
