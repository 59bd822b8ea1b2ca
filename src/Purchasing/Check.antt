-- ===== src/Purchasing/Check.antt =====
-- src/purchasing.rs, `prepare_drafts`: the loop over the vendors, the withdrawal of drafts that nothing
-- is short for any more, and the findings.
pub mod Tables
mod Steps
mod Opens
mod Starts
mod Groups
mod Rounds
pub mod Effects
pub mod Frame
mod Tests
use Prim.Native.String.{◌++◌ as str_append}
use backhaus_ai_backend.Base.{
  ℕ, ◌+◌, ◌-◌, Bool, true, false, not, ◌&&◌, Option, none, some, List, [], ◌∷◌, ◌++◌, String,
  str_eq, ltb, ◌==◌, if◌then◌else◌, any_row, find_row, count_rows, delete_rows, rows_where, map,
  take, length,
}
use backhaus_ai_backend.Base.Json.{Json, null, boolean, string, number, array, object, field, end}
use backhaus_ai_backend.Decimal.{Decimal, Arithmetic, Rounding, whole, le}
use backhaus_ai_backend.Store.{Db}
use backhaus_ai_backend.Store.Orders.{Order, Line}
use backhaus_ai_backend.Store.Stock.{Item}
use backhaus_ai_backend.Purchasing.{Policy, policy, approval_reason}
use backhaus_ai_backend.Purchasing.Lines.{items_of, describe_reason}
use backhaus_ai_backend.Purchasing.Shortages.{VendorGroup, Sorted, shortages, below, unset}
use backhaus_ai_backend.Purchasing.Drafts.{
  Draft, for_vendor, load_drafts, reason_name, is_held, subtotal_of, group_attention, Proposal,
  Placed, revise, open_draft, approve_draft, withdraw,
}

-- An order among the findings.
pub record Prepared : Type 0 where
  pub placed : Placed
  pub proposal : Proposal
  pub approved : Bool

-- What the loop over the groups carries: the tables, the drafts not yet taken up, and the findings.
pub record Work : Type 0 where
  pub db : Db
  pub drafts : List Draft
  pub orders : List Prepared
  pub held : List Json

-- The values of `json!` at the end of the check.
pub record Findings : Type 0 where
  pub total_items : ℕ
  pub below_par : ℕ
  pub par_unset : ℕ
  pub revision : ℕ
  pub orders : List Prepared
  pub covered : ℕ
  pub attention : List Json
  pub attention_total : ℕ
  pub withdrawn : List String
  pub policy : Policy

abbrev pub held_json : VendorGroup → Order → Json
held_json g o = object (
    field "vendor" (string g.vendor_name) (
      field "number" (string o.number) (
        field "reason" (string "rejected_unchanged") (
          field "detail"
            (string (
              str_append o.number (
                str_append " was rejected and nothing has changed for "
                  (str_append g.vendor_name "; no new draft until stock, rules or prices change"))))
            end))))

abbrev pub propose : Arithmetic → Rounding → Policy → ℕ → VendorGroup → Proposal × Bool
propose ops r p revision g =
    let reason = approval_reason ops p (subtotal_of ops r g) (group_attention g) in
    (
      record {
        group = g;
        subtotal = subtotal_of ops r g;
        attention = group_attention g;
        reason = reason_name reason.0;
        revision = revision;
      },
      reason.1,
    )

-- `new_id` draws the identifier of a new order for a vendor, `show` prints a number, `show_id` an
-- identifier.
module _ (ops : Arithmetic) (r : Rounding) (show show_id : ℕ → String) (new_id : ℕ → ℕ) (now : ℕ)
    (ws : String) where
  -- The order of a proposal, and the drafts that are left.
  unfoldable pub place : Proposal → Work → Placed × Db × List Draft
  unfolding revise open_draft
  place p w = elim (find_row (for_vendor p.group.vendor_id) w.drafts) [
    | some d ↦
        let placed = revise ops show now ws d p w.db in
        (placed.0, placed.1, delete_rows (for_vendor p.group.vendor_id) w.drafts)
    | none ↦
        let placed = open_draft ops show now ws (new_id p.group.vendor_id) p w.db in
        (placed.0, placed.1, w.drafts)
  ]

  unfoldable pub prepare_order : Proposal → Bool → Work → Work
  unfolding place approve_draft
  prepare_order p auto w =
      let x = place p w in
      record {
        db = if auto then approve_draft ops show now ws x.0.id p x.1 else x.1;
        drafts = x.2;
        orders = w.orders ++ record { placed = x.0; proposal = p; approved = auto } ∷ [];
        held = w.held;
      }

  -- One round: the group is held, or its order is prepared.
  unfoldable pub prepare_group : Policy → ℕ → VendorGroup → Work → Work
  unfolding is_held prepare_order
  prepare_group policy revision g w =
      let x = propose ops r policy revision g in
      let prepared = prepare_order x.0 x.1 w in
      if any_row (for_vendor g.vendor_id) w.drafts
      then prepared
      else (elim (is_held ops ws g w.db) [
        | some o ↦ record w { held = w.held ++ held_json g o ∷ [] }
        | none ↦ prepared
      ])

  unfoldable pub prepare_groups : Policy → ℕ → List (String × VendorGroup) → Work → Work
  unfolding prepare_group
  prepare_groups policy revision [] w = w
  prepare_groups policy revision (g ∷ gs) w =
      prepare_groups policy revision gs (prepare_group policy revision g.1 w)

  unfoldable pub withdraw_all : ℕ → List Draft → Db → List String × Db
  unfolding withdraw
  withdraw_all revision [] db = ([], db)
  withdraw_all revision (d ∷ ds) db =
      let x = withdraw ops show now ws revision d db in
      let rest = withdraw_all revision ds x.1 in (x.0 ∷ rest.0, rest.1)

  unfoldable pub prepare_drafts : (List Item → List Item) → ℕ → Db → Findings × Db
  unfolding shortages load_drafts prepare_groups withdraw_all policy
  prepare_drafts collate revision db =
      let p = policy ws db in
      let s = shortages ops r collate show_id ws db in
      let w =
        prepare_groups p revision s.groups
          (record { db = db; drafts = load_drafts ws db; orders = []; held = [] }) in
      let left = withdraw_all revision w.drafts w.db in
      let attention = s.attention ++ w.held in
      (
        record {
          total_items = count_rows (λ i. str_eq i.workspace ws) db.items;
          below_par = count_rows (below ops ws) db.items;
          par_unset = count_rows (unset ops ws) db.items;
          revision = revision;
          orders = w.orders;
          covered = s.covered;
          attention = take 25 attention;
          attention_total = length attention;
          withdrawn = left.0;
          policy = p;
        },
        left.1,
      )
