-- ===== src/Purchasing/Check/Groups.antt =====
-- The groups of the check of the stock are of different vendors: the key of a group holds the name of
-- its vendor, which the table of vendors determines.
use package.text.Mathlib.TextEquality.{eq_iff}
use backhaus_ai_backend.Base.{
  ℕ, ◌≡◌, refl, sym, ap, subst, ◌∙◌, inl, inr, false, Option, some, List, [], ◌∷◌, String, str_eq,
  ◌==◌, if◌then◌else◌, arith, All, Pairs, find_row, find_row_sound, map, Bool-cases, Option-cases,
  All-of_mem, All-mem,
}
use backhaus_ai_backend.Base.Entries.{All-entry, Pairs-entry}
use backhaus_ai_backend.Decimal.{Decimal, Arithmetic, Rounding}
use backhaus_ai_backend.Store.{Db}
use backhaus_ai_backend.Store.Orders.{Vendor, VendorItem, Line}
use backhaus_ai_backend.Store.Stock.{Item}
use backhaus_ai_backend.Purchasing.{is_vendor}
use backhaus_ai_backend.Purchasing.Packs.{packs_to_order}
use backhaus_ai_backend.Purchasing.Shortages.{
  line_for, ShortRow, VendorGroup, Sorted, supplier_of, on_order, preferred_rule, par_of,
  short_rows, group_key, key_before, has_key, with_line, new_group, add_line, sort_row, sort_rows,
  shortages,
}
use backhaus_ai_backend.Purchasing.Check.Tables.{OtherVendors}

abbrev OtherKeys : String × VendorGroup → String × VendorGroup → Type 0
OtherKeys a b = str_eq a.0 b.0 ≡ false

module _ (show_id : ℕ → String) (ws : String) (db : Db) where
  abbrev Named : String × VendorGroup → Type 0
  Named e =
      (v : Vendor) × (find_row (is_vendor ws e.1.vendor_id) db.vendors ≡ some v)
      × (e.0 ≡ group_key show_id v.name e.1.vendor_id)

  record AreGroups (gs : List (String × VendorGroup)) : Type 0 where
    pub named : All Named gs
    pub keys : Pairs OtherKeys gs

  abbrev Supplied : ShortRow → Type 0
  Supplied row =
      (rule : VendorItem) (v : Vendor)
      → row.supplier ≡ some (rule, v)
      → find_row (is_vendor ws v.id) db.vendors ≡ some v

  add_line-AreGroups :
      (v : Vendor) (l : Line) (gs : List (String × VendorGroup))
      → find_row (is_vendor ws v.id) db.vendors ≡ some v
      → AreGroups gs
      → AreGroups (add_line show_id v l gs)
  unfolding add_line
  add_line-AreGroups v l gs h k = record {
    named =
        All-entry key_before (has_key key) (with_line l) (new_group key v l) gs Named (v, h, refl)
          (λ a n. n) k.named;
    keys =
        Pairs-entry key_before (has_key key) (with_line l) (new_group key v l) gs OtherKeys
          (λ a e. (str_eq_sym a.0 key e, e)) (λ a b r. same a b r) k.keys;
  }
    where
      key : String
      key = group_key show_id v.name v.id

      str_eq_sym : (a b : String) → str_eq a b ≡ false → str_eq b a ≡ false
      str_eq_sym a b e = elim (Bool-cases (str_eq b a)) [
        | inr t ↦ t
        | inl t ↦ absurd (ground (arith, e, (eq_iff a b).1 (sym ((eq_iff b a).0 t))))
      ]

      same :
          (a b : String × VendorGroup)
          → OtherKeys a b
          → OtherKeys
              (if has_key key a then with_line l a else a)
              (if has_key key b then with_line l b else b)
      same a b r = ground (arith, r)

  sort_row-AreGroups :
      (ops : Arithmetic) (r : Rounding) (row : ShortRow) (s : Sorted)
      → Supplied row
      → AreGroups s.groups
      → AreGroups (sort_row ops r show_id row s).groups
  unfolding sort_row
  sort_row-AreGroups ops r row s h k = elim (Option-cases row.supplier) [
    | inl e ↦ unchanged (ground (arith, e))
    | inr ((rule, v), e) ↦ elim (Option-cases rule.pack_price) [
      | inl f ↦ unchanged (ground (arith, e, f))
      | inr (price, f) ↦ elim (Option-cases (packs row rule)) [
        | inl g ↦ unchanged (ground (arith, e, f, g))
        | inr (p, g) ↦
            let q : (sort_row ops r show_id row s).groups
                ≡ add_line show_id v (line_for ops r row rule price p) s.groups =
              ground (arith, e, f, g) in
            subst AreGroups (sym q) (add_line-AreGroups v _ s.groups (h rule v e) k)
      ]
    ]
  ]
    where
      packs : ShortRow → VendorItem → Option Decimal
      packs row rule =
          packs_to_order ops row.item.current_balance row.par_level rule.reorder_target row.on_order
            rule.units_per_pack rule.minimum_order_quantity

      unchanged :
          (sort_row ops r show_id row s).groups ≡ s.groups
          → AreGroups (sort_row ops r show_id row s).groups
      unchanged q = subst AreGroups (sym q) k

  sort_rows-AreGroups :
      (ops : Arithmetic) (r : Rounding) (rows : List ShortRow) (s : Sorted)
      → All Supplied rows
      → AreGroups s.groups
      → AreGroups (sort_rows ops r show_id rows s).groups
  unfolding sort_rows
  sort_rows-AreGroups ops r [] s h k = k
  sort_rows-AreGroups ops r (row ∷ rows) s h k =
      sort_rows-AreGroups ops r rows _ h.1 (sort_row-AreGroups ops r row s h.0 k)

  supplier-Supplied :
      (item : String) (rule : VendorItem) (v : Vendor)
      → supplier_of ws item db ≡ some (rule, v)
      → find_row (is_vendor ws v.id) db.vendors ≡ some v
  unfolding supplier_of
  supplier-Supplied item rule v h =
      elim (Option-cases (find_row (preferred_rule ws item) db.vendor_items)) [
        | inl e ↦ absurd (ground (arith, h, e))
        | inr (r, e) ↦ elim (Option-cases (find_row (is_vendor ws r.vendor_id) db.vendors)) [
          | inl f ↦ absurd (ground (arith, h, e, f))
          | inr (u, f) ↦ elim (Bool-cases (str_eq u.research_status "discarded")) [
            | inl t ↦ absurd (ground (arith, h, e, f, t))
            | inr t ↦
                let k : ◌≡◌ {A = Option (VendorItem × Vendor)} (some (r, u)) (some (rule, v)) =
                  ground (arith, h, e, f, t) in
                let one : u ≡ v = ground (arith, k) in
                let same : r.vendor_id ≡ v.id =
                  ground (arith, find_row_sound _ db.vendors f, one) in
                subst (λ x. find_row (is_vendor ws x) db.vendors ≡ some v) same (f ∙ ap some one)
          ]
        ]
      ]

  rows-Supplied :
      (ops : Arithmetic) (items : List Item)
      → All Supplied (
          map
            (λ i. record {
              item = i;
              par_level = par_of i;
              supplier = supplier_of ws i.id db;
              on_order = on_order ops ws i.id db;
            })
            items)
  rows-Supplied ops [] = tt
  rows-Supplied ops (i ∷ items) =
      (λ rule v e. supplier-Supplied i.id rule v e, rows-Supplied ops items)

  apart : (a b : String × VendorGroup) → Named a → Named b → OtherKeys a b → OtherVendors a b
  apart a b (v, fv, kv) (u, fu, ku) ne = elim (Bool-cases (a.1.vendor_id == b.1.vendor_id)) [
    | inr e ↦ e
    | inl e ↦
        let t : a.1.vendor_id ≡ b.1.vendor_id = ground (arith, e) in
        let one : v ≡ u =
          ground (arith, sym fv ∙ ap (λ x. find_row (is_vendor ws x) db.vendors) t ∙ fu) in
        let keys : a.0 ≡ b.0 =
          kv
          ∙ ap (λ (x : Vendor). group_key show_id x.name a.1.vendor_id) one
          ∙ ap (group_key show_id u.name) t
          ∙ sym ku in
        absurd (ground (arith, ne, (eq_iff a.0 b.0).1 keys))
  ]

  others_apart : (gs : List (String × VendorGroup)) → AreGroups gs → Pairs OtherVendors gs
  others_apart [] h = tt
  others_apart (g ∷ gs) h = (
    All-of_mem gs (λ x m.
        apart g x h.named.0 (All-mem Named gs h.named.1 m) (All-mem (OtherKeys g) gs h.keys.0 m)),
    others_apart gs (record { named = h.named.1; keys = h.keys.1 }),
  )

  pub shortages_apart :
      (ops : Arithmetic) (r : Rounding) (collate : List Item → List Item)
      → Pairs OtherVendors (shortages ops r collate show_id ws db).groups
  unfolding shortages short_rows
  shortages_apart ops r collate = others_apart _ (
      sort_rows-AreGroups ops r (short_rows ops collate ws db)
        (record { attention = []; covered = 0; groups = [] }) (rows-Supplied ops _)
        (record { named = tt; keys = tt }))
