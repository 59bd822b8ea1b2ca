-- ===== src/Purchasing/Check/Steps.antt =====
-- The loop of the check keeps its state: a draft is taken up, a new one is opened, a group is passed
-- over, a draft is approved, a draft is withdrawn.
use package.text.Mathlib.TextEquality.{eq_iff}
use backhaus_ai_backend.Base.{
  ℕ, ◌≡◌, sym, ap, subst, ◌∙◌, inl, inr, true, false, some, List, ◌∷◌, String, ◌==◌, if◌then◌else◌,
  arith, All, Memᴰ, any_row, find_row, update_rows, delete_rows, Bool-cases, All-mem,
  mem-update_rows, find_row_sound, find_row-mem, Pairs-delete_rows, All-mono, All-changed,
  any_row-delete_rows, All-deleted, any_row-update_rows, All_of_none,
}
use backhaus_ai_backend.Store.Orders.{Order}
use backhaus_ai_backend.Purchasing.Shortages.{VendorGroup}
use backhaus_ai_backend.Purchasing.Drafts.{Draft, for_vendor, is_open, has_id}
use backhaus_ai_backend.Purchasing.Check.Tables.{
  clash, IsOrderTable, group_for, OtherVendors, points_to, OtherDrafts, Accounted, Stands, IsWork,
  same_row, Replaces, update-IsOrderTable,
}

pub none_left :
    (g : String × VendorGroup) (gs : List (String × VendorGroup))
    → All (OtherVendors g) gs
    → any_row (group_for g.1.vendor_id) gs ≡ false
none_left g gs h =
    All_of_none (group_for g.1.vendor_id) gs (All-mono _ _ gs (λ a e. ground (arith, e)) h)

-- Two rows with one key clash; so do two open drafts of one vendor.
same_key : (a b : Order) → a.id ≡ b.id → clash a b ≡ true
same_key a b e = ground arith

pub both_open :
    (ws : String) (a b : Order)
    → is_open ws a ≡ true
    → is_open ws b ≡ true
    → a.vendor_id ≡ b.vendor_id
    → clash a b ≡ true
both_open ws a b o p e =
    let wa : a.workspace ≡ ws = (eq_iff a.workspace ws).0 (ground (arith, o)) in
    let wb : b.workspace ≡ ws = (eq_iff b.workspace ws).0 (ground (arith, p)) in
    ground (arith, o, p, e, (eq_iff a.workspace b.workspace).1 (wa ∙ sym wb))

module _ (ws : String) (revision : ℕ) (new_id : ℕ → ℕ) (os : List Order)
    (table : IsOrderTable os) where
  -- The row that a draft stands for is the only one with its identifier, and the only open one of its
  -- vendor.
  by_id : (a b : Order) → Memᴰ a os → Memᴰ b os → a.id ≡ b.id → a ≡ b
  by_id a b m n e =
      same_row ws revision new_id os a b table m n (same_key a b e) (same_key b a (sym e))

  by_vendor :
      (a b : Order)
      → Memᴰ a os
      → Memᴰ b os
      → is_open ws a ≡ true
      → is_open ws b ≡ true
      → a.vendor_id ≡ b.vendor_id
      → a ≡ b
  by_vendor a b m n o p e =
      same_row ws revision new_id os a b table m n (both_open ws a b o p e)
        (both_open ws b a p o (sym e))

  -- A draft of another vendor stands for another row.
  pub apart_ids :
      (d e : Draft)
      → Stands ws revision new_id os d
      → Stands ws revision new_id os e
      → (e.vendor_id == d.vendor_id) ≡ false
      → (e.id == d.id) ≡ false
  apart_ids d e (od, md, pd, _) (oe, me, pe, _) ne = elim (Bool-cases (e.id == d.id)) [
    | inr f ↦ f
    | inl t ↦
        let one : oe ≡ od = by_id oe od me md (ground (arith, t, pd, pe)) in
        absurd (ground (arith, ap (λ (x : Order). x.vendor_id) one, pd, pe, ne))
  ]

  -- A row that is no open draft has another identifier than a draft's row.
  pub settled_id :
      (d : Draft) (x : Order)
      → Stands ws revision new_id os d
      → Memᴰ x os
      → is_open ws x ≡ false
      → has_id d.id x ≡ false
  settled_id d x (od, m, p, o) n c = elim (Bool-cases (has_id d.id x)) [
    | inr e ↦ e
    | inl e ↦ absurd (ground (arith, o, c, ap (is_open ws) (by_id x od n m (ground (arith, e, p)))))
  ]

-- What taking up or opening the draft of a vendor leaves.
pub record Taken (ws : String) (revision : ℕ) (new_id : ℕ → ℕ) (id : ℕ) (os : List Order)
    (drafts : List Draft) (left : List (String × VendorGroup)) : Type 0 where
  pub work : IsWork ws revision new_id os drafts left
  pub apart : any_row (λ e. e.id == id) drafts ≡ false

module _ (ws : String) (revision : ℕ) (new_id : ℕ → ℕ) where
  pub passed_over :
      (drafts : List Draft) (g : String × VendorGroup) (gs : List (String × VendorGroup))
      (o : Order)
      → Accounted ws revision new_id drafts (g ∷ gs) o
      → Accounted ws revision new_id drafts gs o
  passed_over drafts g gs o h open_o = elim (h open_o) [
    | inl p ↦ inl p
    | inr (r, n) ↦ inr (r, ground (arith, n))
  ]

  pub skip-IsWork :
      (os : List Order) (drafts : List Draft) (g : String × VendorGroup)
      (gs : List (String × VendorGroup))
      → IsWork ws revision new_id os drafts (g ∷ gs)
      → IsWork ws revision new_id os drafts gs
  skip-IsWork os drafts g gs w = record {
    table = w.table;
    accounted = All-mono _ _ os (λ o h. passed_over drafts g gs o h) w.accounted;
    stand = w.stand;
    keyed = w.keyed;
    vendors = w.vendors.1;
    fresh = w.fresh.1;
  }

  -- A change of a draft's row that keeps it a draft of its vendor, at this revision.
  pub record Revises (f : Order → Order) : Type 0 where
    pub replaces : (o : Order) → Replaces (f o) o
    pub status : (o : Order) → (f o).status ≡ o.status
    pub revised : (o : Order) → (f o).revision ≡ revision

  module _ (os : List Order) (drafts : List Draft) (g : String × VendorGroup)
      (gs : List (String × VendorGroup)) (w : IsWork ws revision new_id os drafts (g ∷ gs))
      (d : Draft) (found : find_row (for_vendor g.1.vendor_id) drafts ≡ some d) (f : Order → Order)
      (k : Revises f) where
    Stands-d : Stands ws revision new_id os d
    Stands-d = All-mem _ drafts w.stand (find_row-mem _ drafts found)

    vendor_d : d.vendor_id ≡ g.1.vendor_id
    vendor_d = ground (arith, find_row_sound (for_vendor g.1.vendor_id) drafts found)

    Accounted-taken :
        (o : Order)
        → Memᴰ o os
        → Accounted ws revision new_id drafts (g ∷ gs) o
        → Accounted ws revision new_id
            (delete_rows (for_vendor g.1.vendor_id) drafts)
            gs
            (if has_id d.id o then f o else o)
    Accounted-taken o m h = elim (Bool-cases (has_id d.id o)) [
      | inl e ↦
          let one : o ≡ Stands-d.0 =
            by_id ws revision new_id os w.table o Stands-d.0 m Stands-d.1
              (ground (arith, e, Stands-d.2)) in
          let v : (f o).vendor_id ≡ g.1.vendor_id =
            (k.replaces o).vendor
            ∙ ap (λ (x : Order). x.vendor_id) one
            ∙ ground (arith, Stands-d.2, vendor_d) in
          rw e (λ _. inr (
            k.revised o,
            subst (λ x. any_row (group_for x) gs ≡ false) (sym v) (none_left g gs w.vendors.0),
          ))
      | inr e ↦ rw e (λ open_o. elim (h open_o) [
        | inr (r, n) ↦ inr (r, ground (arith, n))
        | inl p ↦ elim (Bool-cases (o.vendor_id == g.1.vendor_id)) [
          | inl same ↦
              let one : o ≡ Stands-d.0 =
                by_vendor ws revision new_id os w.table o Stands-d.0 m Stands-d.1 open_o Stands-d.3
                  (ground (arith, same, vendor_d, Stands-d.2)) in
              absurd (ground (arith, e, ap (λ (x : Order). x.id) one, Stands-d.2))
          | inr other ↦ inl (
              any_row-delete_rows (points_to o) (for_vendor g.1.vendor_id) drafts
                (λ a t. ground (arith, t, other)) p)
        ]
      ])
    ]

    others :
        All
          (λ e. Stands ws revision new_id os e × (for_vendor g.1.vendor_id e ≡ false))
          (delete_rows (for_vendor g.1.vendor_id) drafts)
    others = All-deleted _ (for_vendor g.1.vendor_id) drafts w.stand

    other_id :
        (e : Draft)
        → Stands ws revision new_id os e × (for_vendor g.1.vendor_id e ≡ false)
        → (e.id == d.id) ≡ false
    other_id e (st, ne) =
        apart_ids ws revision new_id os w.table d e Stands-d st (ground (arith, ne, vendor_d))

    still-Stands :
        (e : Draft)
        → Stands ws revision new_id os e × (for_vendor g.1.vendor_id e ≡ false)
        → Stands ws revision new_id (update_rows (has_id d.id) f os) e
    still-Stands e h =
        let ((oe, m, p, o), ne) = h in
        (oe, mem-update_rows (has_id d.id) f os (ground (arith, p, other_id e h)) m, p, o)

    pub take_up :
        Taken ws revision new_id d.id
          (update_rows (has_id d.id) f os)
          (delete_rows (for_vendor g.1.vendor_id) drafts)
          gs
    take_up = record {
      work = record {
        table = update-IsOrderTable (has_id d.id) f os k.replaces w.table;
        accounted =
            All-changed (Accounted ws revision new_id drafts (g ∷ gs)) _ (has_id d.id) f os
              (λ o m h. Accounted-taken o m h) w.accounted;
        stand = All-mono _ _ _ (λ e h. still-Stands e h) others;
        keyed = Pairs-delete_rows OtherDrafts _ drafts w.keyed;
        vendors = w.vendors.1;
        fresh =
            All-mono _ _ gs
              (λ x h.
                any_row-update_rows (has_id (new_id x.1.vendor_id)) (has_id d.id) f os
                  (λ a. ground (arith, (k.replaces a).id))
                ∙ h)
              w.fresh.1;
      };
      apart = All_of_none _ _ (All-mono _ _ _ (λ e h. other_id e h) others);
    }
