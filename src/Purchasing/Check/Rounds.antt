-- ===== src/Purchasing/Check/Rounds.antt =====
-- A round of the check keeps the state of its loop, and the rows that are not open drafts.
use backhaus_ai_backend.Base.{
  ℕ, ◌≡◌, refl, sym, subst, inl, inr, Bool, true, false, ◌&&◌, Option, none, some, List, ◌∷◌,
  String, str_eq, ◌==◌, arith, Memᴰ, find_row, update_rows, delete_rows, Bool-cases, Option-cases,
  All-mem, mem-append, mem-update_rows, any_row_of_find_row, find_row-mem,
}
use backhaus_ai_backend.Base.Text.{str_eq_refl}
use backhaus_ai_backend.Decimal.{Arithmetic, Rounding}
use backhaus_ai_backend.Store.{Db}
use backhaus_ai_backend.Store.Orders.{Order, approved, automatic, is_draft, Vendor}
use backhaus_ai_backend.Purchasing.{decided_row}
use backhaus_ai_backend.Purchasing.Lines.{lines_of, insert_lines, record_event, actor_agent}
use backhaus_ai_backend.Purchasing.Shortages.{VendorGroup}
use backhaus_ai_backend.Purchasing.Drafts.{
  Draft, for_vendor, is_open, has_id, Proposal, Placed, refreshed, revised, drafted, revise,
  open_draft, approve_draft, withdrawn_row, same_lines,
}
use backhaus_ai_backend.Purchasing.Check.{Work, place, prepare_order}
use backhaus_ai_backend.Purchasing.Check.Tables.{IsWork}
use backhaus_ai_backend.Purchasing.Check.Steps.{Taken, Revises, take_up, settled_id}
use backhaus_ai_backend.Purchasing.Check.Opens.{IsNew, open_new, Closes, close-Taken}

module _ (ops : Arithmetic) (show : ℕ → String) (now : ℕ) (ws : String) (revision : ℕ)
    (new_id : ℕ → ℕ) where
  -- What `revise` does to the table of orders.
  record Revised (d : Draft) (p : Proposal) (db : Db) : Type 0 where
    pub change : Order → Order
    pub revises : Revises ws revision new_id change
    pub orders :
        (revise ops show now ws d p db).1.orders ≡ update_rows (has_id d.id) change db.orders
    pub id : (revise ops show now ws d p db).0.id ≡ d.id

  refreshed-Revises :
      (p : Proposal) → p.revision ≡ revision → Revises ws revision new_id (refreshed now p)
  unfolding refreshed
  refreshed-Revises p e = record {
    replaces = λ o. record { id = refl; workspace = refl; vendor = refl; closed = λ h. h };
    status = λ o. refl;
    revised = λ o. e;
  }

  revised-Revises :
      (p : Proposal) (version : ℕ)
      → p.revision ≡ revision
      → Revises ws revision new_id (revised now p version)
  unfolding revised
  revised-Revises p version e = record {
    replaces = λ o. record { id = refl; workspace = refl; vendor = refl; closed = λ h. h };
    status = λ o. refl;
    revised = λ o. e;
  }

  revise-Revised : (d : Draft) (p : Proposal) (db : Db) → p.revision ≡ revision → Revised d p db
  unfolding revise insert_lines record_event
  revise-Revised d p db e =
      elim (Bool-cases (same_lines ops (lines_of ws d.id 500 db) p.group.lines)) [
        | inl t ↦ record {
          change = refreshed now p;
          revises = refreshed-Revises p e;
          orders = ground (arith, t);
          id = ground (arith, t);
        }
        | inr t ↦ record {
          change = revised now p d.version;
          revises = revised-Revises p d.version e;
          orders = ground (arith, t);
          id = ground (arith, t);
        }
      ]

  drafted-IsNew :
      (p : Proposal) (num : String)
      → p.revision ≡ revision
      → IsNew ws revision new_id p.group.vendor_id (drafted now ws (new_id p.group.vendor_id) num p)
  unfolding drafted
  drafted-IsNew p num e = record {
    id = refl;
    vendor = refl;
    opened = ground (arith, str_eq_refl ws);
    current = e;
  }

  approval-Closes :
      (id : ℕ) (said : Option String) (vendors : List Vendor)
      → Closes ws revision new_id id
          (λ o. str_eq o.workspace ws && o.id == id && is_draft o.status)
          (decided_row now approved (some automatic) actor_agent said vendors)
  unfolding decided_row
  approval-Closes id said vendors = record {
    replaces = λ o. record { id = refl; workspace = refl; vendor = refl; closed = λ _. refl };
    closed = λ o. refl;
    only = λ o h. ground (arith, h);
  }

  pub withdrawn-Closes :
      (id : ℕ) → Closes ws revision new_id id (has_id id) (withdrawn_row ops show now ws revision)
  unfolding withdrawn_row
  withdrawn-Closes id = record {
    replaces = λ o. record { id = refl; workspace = refl; vendor = refl; closed = λ _. refl };
    closed = λ o. refl;
    only = λ o h. h;
  }

module _ (ops : Arithmetic) (r : Rounding) (show show_id : ℕ → String) (new_id : ℕ → ℕ) (now : ℕ)
    (ws : String) (revision : ℕ) (injective : (a b : ℕ) → new_id a ≡ new_id b → a ≡ b) where
  place_new :
      (p : Proposal) (w : Work)
      → find_row (for_vendor p.group.vendor_id) w.drafts ≡ none
      → place ops r show show_id new_id now ws p w ≡ (
        (open_draft ops show now ws (new_id p.group.vendor_id) p w.db).0,
        (open_draft ops show now ws (new_id p.group.vendor_id) p w.db).1,
        w.drafts,
      )
  unfolding place
  place_new p w f = rw (place, f) refl

  place_found :
      (p : Proposal) (w : Work) (d : Draft)
      → find_row (for_vendor p.group.vendor_id) w.drafts ≡ some d
      → place ops r show show_id new_id now ws p w ≡ (
        (revise ops show now ws d p w.db).0,
        (revise ops show now ws d p w.db).1,
        delete_rows (for_vendor p.group.vendor_id) w.drafts,
      )
  unfolding place
  place_found p w d f = rw (place, f) refl

  -- What the order of a group leaves: the table is in order and its draft is at this revision, and the
  -- rows that are no open drafts are still there.
  record Settles (gs : List (String × VendorGroup)) (w : Work) (x : Placed × Db × List Draft)
      : Type 0 where
    pub taken : Taken ws revision new_id x.0.id x.1.orders x.2 gs
    pub kept : (o : Order) → is_open ws o ≡ false → Memᴰ o w.db.orders → Memᴰ o x.1.orders

  pub record Next (gs : List (String × VendorGroup)) (w w' : Work) : Type 0 where
    pub work : IsWork ws revision new_id w'.db.orders w'.drafts gs
    pub kept : (o : Order) → is_open ws o ≡ false → Memᴰ o w.db.orders → Memᴰ o w'.db.orders

  place-Settles :
      (key : String) (p : Proposal) (gs : List (String × VendorGroup)) (w : Work)
      → p.revision ≡ revision
      → IsWork ws revision new_id w.db.orders w.drafts ((key, p.group) ∷ gs)
      → Settles gs w (place ops r show show_id new_id now ws p w)
  unfolding open_draft insert_lines record_event
  place-Settles key p gs w e k =
      elim (Option-cases (find_row (for_vendor p.group.vendor_id) w.drafts)) [
        | inl f ↦
            subst (Settles gs w) (sym (place_new p w f))
              (record { taken = opened f; kept = λ o _ m. kept_new o m })
        | inr (d, f) ↦
            let v = revise-Revised ops show now ws revision new_id d p w.db e in
            subst (Settles gs w) (sym (place_found p w d f)) (record {
              taken =
                  subst
                    (λ i.
                      Taken ws revision new_id i (revise ops show now ws d p w.db).1.orders
                        (delete_rows (for_vendor p.group.vendor_id) w.drafts) gs)
                    (sym v.id)
                    (subst
                      (λ os.
                        Taken ws revision new_id d.id os
                          (delete_rows (for_vendor p.group.vendor_id) w.drafts) gs)
                      (sym v.orders)
                      (take_up ws revision new_id w.db.orders w.drafts (key, p.group) gs k d f
                        v.change v.revises));
              kept = λ o c m. subst (Memᴰ o) (sym v.orders) (
                  mem-update_rows (has_id d.id) v.change w.db.orders
                    (settled_id ws revision new_id w.db.orders k.table d o
                      (All-mem _ w.drafts k.stand (find_row-mem _ w.drafts f)) m c)
                    m);
            })
      ]
    where
      opened :
          find_row (for_vendor p.group.vendor_id) w.drafts ≡ none
          → Taken ws revision new_id
              (open_draft ops show now ws (new_id p.group.vendor_id) p w.db).0.id
              (open_draft ops show now ws (new_id p.group.vendor_id) p w.db).1.orders
              w.drafts
              gs
      opened f =
          open_new ws revision new_id injective w.db.orders w.drafts (key, p.group) gs k
            (any_row_of_find_row _ w.drafts f) _
            (drafted-IsNew ops show now ws revision new_id p _ e)

      kept_new :
          (o : Order)
          → Memᴰ o w.db.orders
          → Memᴰ o (open_draft ops show now ws (new_id p.group.vendor_id) p w.db).1.orders
      kept_new o m = mem-append w.db.orders _ m

  pub prepare_order-Next :
      (key : String) (p : Proposal) (auto : Bool) (gs : List (String × VendorGroup)) (w : Work)
      → p.revision ≡ revision
      → IsWork ws revision new_id w.db.orders w.drafts ((key, p.group) ∷ gs)
      → Next gs w (prepare_order ops r show show_id new_id now ws p auto w)
  unfolding prepare_order approve_draft record_event
  prepare_order-Next key p false gs w e k =
      let x = place-Settles key p gs w e k in record { work = x.taken.work; kept = x.kept }
  prepare_order-Next key p true gs w e k =
      let x = place-Settles key p gs w e k in
      record {
        work =
            close-Taken ws revision new_id _ _ _
              (approval-Closes ops show now ws revision new_id _ _ _) _ _ gs x.taken;
        kept = λ o c m.
            mem-update_rows
              (λ row.
                str_eq row.workspace ws
                && row.id == (place ops r show show_id new_id now ws p w).0.id
                && is_draft row.status)
              _ _ (ground (arith, c)) (x.kept o c m);
      }
