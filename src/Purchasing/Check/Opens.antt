-- ===== src/Purchasing/Check/Opens.antt =====
-- The rest of the statements of the check: a new draft, an approval, a withdrawal.
use package.text.Mathlib.TextEquality.{eq_iff}
use backhaus_ai_backend.Base.{
  ℕ, ◌≡◌, sym, ap, subst, ◌∙◌, inl, inr, Bool, true, false, List, [], ◌∷◌, ◌++◌, String, str_eq,
  ◌==◌, if◌then◌else◌, arith, Memᴰ, any_row, update_rows, Bool-cases, All-mem, All-of_mem,
  mem-update_rows, Pairs-append, All-append, any_row-mem, All-mono, All-changed,
  any_row-update_rows, All_of_none, any_row-append, any_row_mono, mem-append,
}
use backhaus_ai_backend.Store.Orders.{Order, is_draft}
use backhaus_ai_backend.Purchasing.Shortages.{VendorGroup}
use backhaus_ai_backend.Purchasing.Drafts.{Draft, for_vendor, is_open, has_id}
use backhaus_ai_backend.Purchasing.Check.Tables.{
  clash, group_for, OtherVendors, points_to, Accounted, Stands, IsWork, Replaces,
  update-IsOrderTable,
}
use backhaus_ai_backend.Purchasing.Check.Steps.{Taken, none_left, passed_over, apart_ids}

module _ (ws : String) (revision : ℕ) (new_id : ℕ → ℕ) where
  -- The new row is a draft of the group's vendor, at this revision.
  pub record IsNew (v : ℕ) (n : Order) : Type 0 where
    pub id : n.id ≡ new_id v
    pub vendor : n.vendor_id ≡ v
    pub opened : is_open ws n ≡ true
    pub current : n.revision ≡ revision

  module _ (injective : (a b : ℕ) → new_id a ≡ new_id b → a ≡ b) (os : List Order)
      (drafts : List Draft) (g : String × VendorGroup) (gs : List (String × VendorGroup))
      (w : IsWork ws revision new_id os drafts (g ∷ gs))
      (absent : any_row (for_vendor g.1.vendor_id) drafts ≡ false) (n : Order)
      (k : IsNew g.1.vendor_id n) where
    not_open :
        (o : Order)
        → Accounted ws revision new_id drafts (g ∷ gs) o
        → o.vendor_id ≡ g.1.vendor_id
        → is_open ws o ≡ true
        → ⊥
    not_open o h v open_o = elim (h open_o) [
      | inl p ↦ absurd (
          ground (
            arith,
            absent,
            any_row_mono (points_to o) (for_vendor g.1.vendor_id) drafts
                (λ a t. ground (arith, t, v)) p,
          ))
      | inr (_, e) ↦ absurd (ground (arith, e, v))
    ]

    new_apart :
        (o : Order) → Memᴰ o os → Accounted ws revision new_id drafts (g ∷ gs) o → clash o n ≡ false
    new_apart o m h =
        let other : has_id (new_id g.1.vendor_id) o ≡ false = any_row-mem _ os w.fresh.0 m in
        elim (Bool-cases (clash o n)) [
          | inr e ↦ e
          | inl e ↦
              let wn : n.workspace ≡ ws = (eq_iff n.workspace ws).0 (ground (arith, k.opened)) in
              let wo : str_eq o.workspace n.workspace ≡ str_eq o.workspace ws =
                ap (λ x. str_eq o.workspace x) wn in
              absurd (
                not_open o h (ground (arith, e, other, k.id, k.vendor))
                  (ground (arith, e, other, k.id, wo)))
        ]

    pub open_new : Taken ws revision new_id (new_id g.1.vendor_id) (os ++ n ∷ []) drafts gs
    open_new = record {
      work = record {
        table =
            Pairs-append (λ a b. clash a b ≡ false) os n w.table
              (All-of_mem os (λ o m. new_apart o m (All-mem _ os w.accounted m)));
        accounted =
            All-append _ os (n ∷ [])
              (All-mono _ _ os (λ o h. passed_over ws revision new_id drafts g gs o h) w.accounted)
              (last_accounted, tt);
        stand = All-mono _ _ drafts (λ e h. (h.0, mem-append os (n ∷ []) h.1, h.2, h.3)) w.stand;
        keyed = w.keyed;
        vendors = w.vendors.1;
        fresh =
            All-of_mem gs
              (λ x m. still_fresh x (All-mem _ gs w.fresh.1 m) (All-mem _ gs w.vendors.0 m));
      };
      apart = All_of_none _ drafts (All-mono _ _ drafts (λ e h. old_id e h) w.stand);
    }
      where
        last_accounted : Accounted ws revision new_id drafts gs n
        last_accounted _ = inr (
          k.current,
          subst (λ x. any_row (group_for x) gs ≡ false) (sym k.vendor) (none_left g gs w.vendors.0),
        )

        still_fresh :
            (x : String × VendorGroup)
            → any_row (has_id (new_id x.1.vendor_id)) os ≡ false
            → OtherVendors g x
            → any_row (has_id (new_id x.1.vendor_id)) (os ++ n ∷ []) ≡ false
        still_fresh x h ne = elim (Bool-cases (new_id g.1.vendor_id == new_id x.1.vendor_id)) [
          | inl e ↦
              absurd (ground (arith, ne, injective g.1.vendor_id x.1.vendor_id (ground (arith, e))))
          | inr e ↦
              any_row-append (has_id (new_id x.1.vendor_id)) os (n ∷ [])
              ∙ ground (arith, h, e, k.id)
        ]

        old_id :
            (e : Draft) → Stands ws revision new_id os e → (e.id == new_id g.1.vendor_id) ≡ false
        old_id e (oe, m, p, _) =
            let other : has_id (new_id g.1.vendor_id) oe ≡ false = any_row-mem _ os w.fresh.0 m in
            ground (arith, other, p)

  -- A change that closes rows with one identifier.
  pub record Closes (id : ℕ) (q : Order → Bool) (f : Order → Order) : Type 0 where
    pub replaces : (o : Order) → Replaces (f o) o
    pub closed : (o : Order) → is_draft (f o).status ≡ false
    pub only : (o : Order) → (o.id == id) ≡ false → q o ≡ false

  module _ (id : ℕ) (q : Order → Bool) (f : Order → Order) (k : Closes id q f)
      (os : List Order) where
    still-Stands :
        (e : Draft)
        → Stands ws revision new_id os e
        → (e.id == id) ≡ false
        → Stands ws revision new_id (update_rows q f os) e
    still-Stands e (oe, m, p, o) ne =
        (oe, mem-update_rows q f os (k.only oe (ground (arith, p, ne))) m, p, o)

    Accounted-closed :
        (drafts drafts' : List Draft) (left : List (String × VendorGroup)) (o : Order)
        → (q o ≡ false
            → Accounted ws revision new_id drafts left o
            → Accounted ws revision new_id drafts' left o)
        → Accounted ws revision new_id drafts left o
        → Accounted ws revision new_id drafts' left (if q o then f o else o)
    Accounted-closed drafts drafts' left o move h = elim (Bool-cases (q o)) [
      | inl e ↦ rw e (λ open_o. absurd (ground (arith, open_o, k.closed o)))
      | inr e ↦ rw e (move e h)
    ]

    pub close-Taken :
        (drafts : List Draft) (left : List (String × VendorGroup))
        → Taken ws revision new_id id os drafts left
        → IsWork ws revision new_id (update_rows q f os) drafts left
    close-Taken drafts left t = record {
      table = update-IsOrderTable q f os k.replaces t.work.table;
      accounted =
          All-changed _ _ q f os (λ o _ h. Accounted-closed drafts drafts left o (λ _ x. x) h)
            t.work.accounted;
      stand = All-of_mem drafts (λ e m.
          still-Stands e (All-mem _ drafts t.work.stand m) (any_row-mem _ drafts t.apart m));
      keyed = t.work.keyed;
      vendors = t.work.vendors;
      fresh =
          All-mono _ _ left
            (λ x h.
              any_row-update_rows (has_id (new_id x.1.vendor_id)) q f os
                (λ a. ground (arith, (k.replaces a).id))
              ∙ h)
            t.work.fresh;
    }

    pub close_next :
        (d : Draft) (ds : List Draft)
        → ((o : Order) → (o.id == id) ≡ true → q o ≡ true)
        → d.id ≡ id
        → IsWork ws revision new_id os (d ∷ ds) []
        → IsWork ws revision new_id (update_rows q f os) ds []
    close_next d ds all_of same w = record {
      table = update-IsOrderTable q f os k.replaces w.table;
      accounted =
          All-changed _ _ q f os (λ o _ h. Accounted-closed (d ∷ ds) ds [] o (λ e x. moved o e x) h)
            w.accounted;
      stand = All-of_mem ds (λ e m. still-Stands e (All-mem _ ds w.stand.1 m) (
          subst (λ x. (e.id == x) ≡ false) same
            (apart_ids ws revision new_id os w.table d e w.stand.0 (All-mem _ ds w.stand.1 m)
              (ground (arith, All-mem _ ds w.keyed.0 m)))));
      keyed = w.keyed.1;
      vendors = tt;
      fresh = tt;
    }
      where
        moved :
            (o : Order)
            → q o ≡ false
            → Accounted ws revision new_id (d ∷ ds) [] o
            → Accounted ws revision new_id ds [] o
        moved o e h open_o = elim (h open_o) [
          | inr r ↦ inr r
          | inl p ↦ elim (Bool-cases (o.id == id)) [
            | inl t ↦ absurd (ground (arith, all_of o t, e))
            | inr t ↦ inl (ground (arith, p, t, same))
          ]
        ]
