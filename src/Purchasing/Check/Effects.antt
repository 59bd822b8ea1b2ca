-- ===== src/Purchasing/Check/Effects.antt =====
-- What the check of the stock does to the table of orders.
use backhaus_ai_backend.Base.{
  ℕ, ◌≡◌, refl, sym, subst, inl, inr, true, false, List, [], ◌∷◌, ◌++◌, String, arith, Memᴰ,
  any_row, Bool-cases, Option-cases, All-mem, mem-update_rows,
}
use backhaus_ai_backend.Decimal.{Arithmetic, Rounding}
use backhaus_ai_backend.Store.{Db}
use backhaus_ai_backend.Store.Orders.{Order}
use backhaus_ai_backend.Store.Stock.{Item}
use backhaus_ai_backend.Purchasing.{Policy, policy}
use backhaus_ai_backend.Purchasing.Lines.{record_event}
use backhaus_ai_backend.Purchasing.Shortages.{VendorGroup, shortages}
use backhaus_ai_backend.Purchasing.Drafts.{
  Draft, for_vendor, is_open, has_id, is_held, withdraw, withdrawn_row,
}
use backhaus_ai_backend.Purchasing.Check.{
  Work, propose, prepare_order, prepare_group, prepare_groups, withdraw_all, prepare_drafts,
  held_json,
}
use backhaus_ai_backend.Purchasing.Check.Tables.{IsOrderTable, IsWork}
use backhaus_ai_backend.Purchasing.Check.Steps.{skip-IsWork, settled_id}
use backhaus_ai_backend.Purchasing.Check.Opens.{close_next}
use backhaus_ai_backend.Purchasing.Check.Starts.{start-IsWork}
use backhaus_ai_backend.Purchasing.Check.Groups.{shortages_apart}
use backhaus_ai_backend.Purchasing.Check.Rounds.{Next, prepare_order-Next, withdrawn-Closes}

module _ (ops : Arithmetic) (r : Rounding) (show show_id : ℕ → String) (new_id : ℕ → ℕ) (now : ℕ)
    (ws : String) (revision : ℕ) (injective : (a b : ℕ) → new_id a ≡ new_id b → a ≡ b) where
  abbrev Reaches : List (String × VendorGroup) → Work → Work → Type 0
  Reaches gs w w' = Next ops r show show_id new_id now ws revision injective gs w w'

  prepare_group-Next :
      (p : Policy) (g : String × VendorGroup) (gs : List (String × VendorGroup)) (w : Work)
      → IsWork ws revision new_id w.db.orders w.drafts (g ∷ gs)
      → Reaches gs w (prepare_group ops r show show_id new_id now ws p revision g.1 w)
  unfolding prepare_group
  prepare_group-Next p g gs w k = elim (Bool-cases (any_row (for_vendor g.1.vendor_id) w.drafts)) [
    | inl e ↦ subst (Reaches gs w) (ground (arith, e)) prepared
    | inr e ↦ elim (Option-cases (is_held ops ws g.1 w.db)) [
      | inl f ↦ subst (Reaches gs w) (ground (arith, e, f)) prepared
      | inr (o, f) ↦
          let q : prepare_group ops r show show_id new_id now ws p revision g.1 w
              ≡ record w { held = w.held ++ held_json g.1 o ∷ [] } =
            ground (arith, e, f) in
          subst (Reaches gs w) (sym q) (record {
            work = skip-IsWork ws revision new_id w.db.orders w.drafts g gs k;
            kept = λ _ _ m. m;
          })
    ]
  ]
    where
      prepared : Reaches gs w (
          prepare_order ops r show show_id new_id now ws
            (propose ops r p revision g.1).0
            (propose ops r p revision g.1).1
            w)
      prepared =
          prepare_order-Next ops r show show_id new_id now ws revision injective g.0
            (propose ops r p revision g.1).0 (propose ops r p revision g.1).1 gs w refl k

  prepare_groups-Next :
      (p : Policy) (gs : List (String × VendorGroup)) (w : Work)
      → IsWork ws revision new_id w.db.orders w.drafts gs
      → Reaches [] w (prepare_groups ops r show show_id new_id now ws p revision gs w)
  unfolding prepare_groups
  prepare_groups-Next p [] w k = record { work = k; kept = λ _ _ m. m }
  prepare_groups-Next p (g ∷ gs) w k =
      let x = prepare_group-Next p g gs w k in
      let y = prepare_groups-Next p gs _ x.work in
      record { work = y.work; kept = λ o c m. y.kept o c (x.kept o c m) }

  -- What is left when every draft is withdrawn.
  record IsDone (os os' : List Order) : Type 0 where
    pub work : IsWork ws revision new_id os' [] []
    pub kept : (o : Order) → is_open ws o ≡ false → Memᴰ o os → Memᴰ o os'

  withdraw_all-IsDone :
      (ds : List Draft) (db : Db)
      → IsWork ws revision new_id db.orders ds []
      → IsDone db.orders (withdraw_all ops r show show_id new_id now ws revision ds db).1.orders
  unfolding withdraw_all withdraw record_event
  withdraw_all-IsDone [] db k = record { work = k; kept = λ _ _ m. m }
  withdraw_all-IsDone (d ∷ ds) db k =
      let next =
        close_next ws revision new_id d.id (has_id d.id) (withdrawn_row ops show now ws revision)
          (withdrawn-Closes ops show now ws revision new_id d.id) db.orders d ds (λ _ e. e) refl
          k in
      let rest = withdraw_all-IsDone ds (withdraw ops show now ws revision d db).1 next in
      record {
        work = rest.work;
        kept = λ o c m. rest.kept o c (
            mem-update_rows (has_id d.id) _ db.orders
              (settled_id ws revision new_id db.orders k.table d o k.stand.0 m c) m);
      }

  module _ (collate : List Item → List Item) (db : Db)
      (fresh : (v : ℕ) → any_row (has_id (new_id v)) db.orders ≡ false)
      (table : IsOrderTable db.orders) where
    abbrev after : List Order
    after = (prepare_drafts ops r show show_id new_id now ws collate revision db).1.orders

    done : IsDone db.orders after
    unfolding prepare_drafts
    done =
        let x =
          prepare_groups-Next (policy ws db) (shortages ops r collate show_id ws db).groups _ (
            start-IsWork ws revision new_id db _ table (shortages_apart show_id ws db ops r collate)
              fresh) in
        let y = withdraw_all-IsDone _ _ x.work in
        record { work = y.work; kept = λ o c m. y.kept o c (x.kept o c m) }

    -- The check keeps the constraints of the table of orders, when new identifiers are not in use: no
    -- two rows with one identifier, and no two drafts of one vendor in one workspace.
    pub prepare_drafts-IsOrderTable : IsOrderTable after
    prepare_drafts-IsOrderTable = done.work.table

    -- After the check every draft of the workspace is of the check's revision, whether its lines
    -- changed or not.
    pub prepare_drafts_current :
        (o : Order) → Memᴰ o after → is_open ws o ≡ true → o.revision ≡ revision
    prepare_drafts_current o m e = elim (All-mem _ after done.work.accounted m e) [
      | inl p ↦ absurd (ground (arith, p))
      | inr (q, _) ↦ q
    ]

    -- The check leaves an order alone that is no draft of the workspace, so it changes no order that
    -- has been decided and none of another workspace.
    pub prepare_drafts_settled :
        (o : Order) → is_open ws o ≡ false → Memᴰ o db.orders → Memᴰ o after
    prepare_drafts_settled o c m = done.kept o c m
