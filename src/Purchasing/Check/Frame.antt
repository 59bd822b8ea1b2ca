-- ===== src/Purchasing/Check/Frame.antt =====
-- The check of the stock writes the tables of orders and nothing else.
use backhaus_ai_backend.Base.{
  ℕ, ◌≡◌, refl, sym, subst, ◌∙◌, inl, inr, Bool, true, false, List, [], ◌∷◌, ◌++◌, String, arith,
  any_row, find_row, Bool-cases, Option-cases,
}
use backhaus_ai_backend.Decimal.{Arithmetic, Rounding}
use backhaus_ai_backend.Store.{Db}
use backhaus_ai_backend.Store.Stock.{Item}
use backhaus_ai_backend.Purchasing.{Policy, policy}
use backhaus_ai_backend.Purchasing.Lines.{record_event, insert_lines, lines_of}
use backhaus_ai_backend.Purchasing.Shortages.{VendorGroup, shortages}
use backhaus_ai_backend.Purchasing.Drafts.{
  Draft, Proposal, for_vendor, is_held, same_lines, revise, open_draft, approve_draft, load_drafts,
  withdraw,
}
use backhaus_ai_backend.Purchasing.Check.{
  Work, held_json, propose, place, prepare_order, prepare_group, prepare_groups, withdraw_all,
  prepare_drafts,
}

-- The tables of the agents and their runs are the same.
pub record Frame (a b : Db) : Type 0 where
  pub runs : b.runs ≡ a.runs
  pub agents : b.agents ≡ a.agents
  pub revisions : b.revisions ≡ a.revisions
  pub checks : b.checks ≡ a.checks

Frame-trans : (a b c : Db) → Frame a b → Frame b c → Frame a c
Frame-trans a b c p q = record {
  runs = q.runs ∙ p.runs;
  agents = q.agents ∙ p.agents;
  revisions = q.revisions ∙ p.revisions;
  checks = q.checks ∙ p.checks;
}

module _ (ops : Arithmetic) (r : Rounding) (show show_id : ℕ → String) (new_id : ℕ → ℕ) (now : ℕ)
    (ws : String) where
  revise-Frame : (d : Draft) (p : Proposal) (db : Db) → Frame db (revise ops show now ws d p db).1
  unfolding revise insert_lines record_event
  revise-Frame d p db = elim (Bool-cases (same_lines ops (lines_of ws d.id 500 db) p.group.lines)) [
    | inl t ↦ record {
      runs = ground (arith, t);
      agents = ground (arith, t);
      revisions = ground (arith, t);
      checks = ground (arith, t);
    }
    | inr t ↦ record {
      runs = ground (arith, t);
      agents = ground (arith, t);
      revisions = ground (arith, t);
      checks = ground (arith, t);
    }
  ]

  open_draft-Frame :
      (id : ℕ) (p : Proposal) (db : Db) → Frame db (open_draft ops show now ws id p db).1
  unfolding open_draft insert_lines record_event
  open_draft-Frame id p db = record { runs = refl; agents = refl; revisions = refl; checks = refl }

  place-Frame :
      (p : Proposal) (w : Work) → Frame w.db (place ops r show show_id new_id now ws p w).1
  unfolding place
  place-Frame p w = elim (Option-cases (find_row (for_vendor p.group.vendor_id) w.drafts)) [
    | inl f ↦ rw (place, f) (open_draft-Frame (new_id p.group.vendor_id) p w.db)
    | inr (d, f) ↦ rw (place, f) (revise-Frame d p w.db)
  ]

  prepare_order-Frame :
      (p : Proposal) (auto : Bool) (w : Work)
      → Frame w.db (prepare_order ops r show show_id new_id now ws p auto w).db
  unfolding prepare_order approve_draft record_event
  prepare_order-Frame p false w = place-Frame p w
  prepare_order-Frame p true w =
      let x = place-Frame p w in
      record { runs = x.runs; agents = x.agents; revisions = x.revisions; checks = x.checks }

  prepare_group-Frame :
      (p : Policy) (revision : ℕ) (g : VendorGroup) (w : Work)
      → Frame w.db (prepare_group ops r show show_id new_id now ws p revision g w).db
  unfolding prepare_group
  prepare_group-Frame p revision g w =
      elim (Bool-cases (any_row (for_vendor g.vendor_id) w.drafts)) [
        | inl e ↦ subst FromHere {x = ordered} {y = afterwards} (ground (arith, e)) prepared
        | inr e ↦ elim (Option-cases (is_held ops ws g w.db)) [
          | inl f ↦ subst FromHere {x = ordered} {y = afterwards} (ground (arith, e, f)) prepared
          | inr (o, f) ↦
              let q : prepare_group ops r show show_id new_id now ws p revision g w
                  ≡ record w { held = w.held ++ held_json g o ∷ [] } =
                ground (arith, e, f) in
              subst FromHere (sym q)
                (record { runs = refl; agents = refl; revisions = refl; checks = refl })
        ]
      ]
    where
      FromHere : Work → Type 0
      FromHere x = Frame w.db x.db

      ordered : Work
      ordered =
          prepare_order ops r show show_id new_id now ws (propose ops r p revision g).0
            (propose ops r p revision g).1 w

      afterwards : Work
      afterwards = prepare_group ops r show show_id new_id now ws p revision g w

      prepared :
          Frame w.db
            (prepare_order ops r show show_id new_id now ws
              (propose ops r p revision g).0
              (propose ops r p revision g).1
              w).db
      prepared = prepare_order-Frame (propose ops r p revision g).0 (propose ops r p revision g).1 w

  prepare_groups-Frame :
      (p : Policy) (revision : ℕ) (gs : List (String × VendorGroup)) (w : Work)
      → Frame w.db (prepare_groups ops r show show_id new_id now ws p revision gs w).db
  unfolding prepare_groups
  prepare_groups-Frame p revision [] w = record {
    runs = refl;
    agents = refl;
    revisions = refl;
    checks = refl;
  }
  prepare_groups-Frame p revision (g ∷ gs) w =
      Frame-trans _ _ _ (prepare_group-Frame p revision g.1 w)
        (prepare_groups-Frame p revision gs _)

  withdraw_all-Frame :
      (revision : ℕ) (ds : List Draft) (db : Db)
      → Frame db (withdraw_all ops r show show_id new_id now ws revision ds db).1
  unfolding withdraw_all withdraw record_event
  withdraw_all-Frame revision [] db = record {
    runs = refl;
    agents = refl;
    revisions = refl;
    checks = refl;
  }
  withdraw_all-Frame revision (d ∷ ds) db =
      let x = withdraw_all-Frame revision ds (withdraw ops show now ws revision d db).1 in
      record { runs = x.runs; agents = x.agents; revisions = x.revisions; checks = x.checks }

  pub prepare_drafts-Frame :
      (collate : List Item → List Item) (revision : ℕ) (db : Db)
      → Frame db (prepare_drafts ops r show show_id new_id now ws collate revision db).1
  unfolding prepare_drafts
  prepare_drafts-Frame collate revision db =
      let start : Work = record { db = db; drafts = load_drafts ws db; orders = []; held = [] } in
      let w =
        prepare_groups ops r show show_id new_id now ws (policy ws db) revision
          (shortages ops r collate show_id ws db).groups start in
      Frame-trans _ _ _
        (prepare_groups-Frame (policy ws db) revision (shortages ops r collate show_id ws db).groups
          start)
        (withdraw_all-Frame revision w.drafts w.db)
