-- ===== src/Purchasing/History.antt =====
-- The table of orders under checks of the stock and decisions of the operator, in any order.
use backhaus_ai_backend.Base.{
  ℕ, ◌≡◌, refl, sym, ap, subst, inl, inr, false, ◌&&◌, Option, List, String, arith, Memᴰ, any_row,
  find_row, Option-cases, mem-update_rows,
}
use backhaus_ai_backend.Base.Result.{ok}
use backhaus_ai_backend.Decimal.{Arithmetic, Rounding}
use backhaus_ai_backend.Store.{Db}
use backhaus_ai_backend.Store.Orders.{Order, is_draft}
use backhaus_ai_backend.Store.Stock.{Item}
use backhaus_ai_backend.Purchasing.{
  Action, approve, reject, other, Decision, decide_versioned, decided_row, is_order, kept_note,
}
use backhaus_ai_backend.Purchasing.Drafts.{has_id}
use backhaus_ai_backend.Purchasing.Decisions.{
  decide_draft, decided_unchanged, decision_of, draft-cases,
}
use backhaus_ai_backend.Purchasing.Check.{prepare_drafts}
use backhaus_ai_backend.Purchasing.Check.Tables.{Replaces, IsOrderTable, update-IsOrderTable}
use backhaus_ai_backend.Purchasing.Check.Effects.{
  prepare_drafts-IsOrderTable, prepare_drafts_settled,
}

-- One call that writes the table of orders; `Uuid::new_v4` draws identifiers that no order has.
pub data OrderStep (db db' : Db) : Type 0 where
  checks :
      (ops : Arithmetic) (r : Rounding) (show show_id : ℕ → String) (new_id : ℕ → ℕ) (now : ℕ)
      (ws : String) (collate : List Item → List Item) (revision : ℕ)
      → ((a b : ℕ) → new_id a ≡ new_id b → a ≡ b)
      → ((v : ℕ) → any_row (has_id (new_id v)) db.orders ≡ false)
      → (prepare_drafts ops r show show_id new_id now ws collate revision db).1 ≡ db'
      → OrderStep db db'
  decides :
      (ops : Arithmetic) (now : ℕ) (ws : String) (id : ℕ) (action : Action) (actor : String)
      (remark : Option String) (expected : Option ℕ) (d : Decision)
      → decide_versioned ops now ws id action actor remark expected db ≡ ok (d, db')
      → OrderStep db db'

pub data OrderHistory (db : Db) : Db → Type 0 where
  stop : OrderHistory db db
  call : {db' db'' : Db} → OrderHistory db db' → OrderStep db' db'' → OrderHistory db db''

-- What a call keeps.
pub record Holds (os os' : List Order) : Type 0 where
  pub table : IsOrderTable os'
  pub final : (o : Order) → is_draft o.status ≡ false → Memᴰ o os → Memᴰ o os'

decision_closes : (action : Action) → is_draft (decision_of action).0 ≡ false
decision_closes approve = refl
decision_closes reject = refl
decision_closes other = refl

decision-Holds :
    (ops : Arithmetic) (now : ℕ) (ws : String) (id : ℕ) (action : Action) (actor : String)
    (remark : Option String) (expected : Option ℕ) (d : Decision) (db db' : Db)
    → decide_versioned ops now ws id action actor remark expected db ≡ ok (d, db')
    → IsOrderTable db.orders
    → Holds db.orders db'.orders
decision-Holds ops now ws id action actor remark expected d db db' h t =
    elim (Option-cases (find_row (is_order ws id) db.orders)) [
      | inl e ↦ absurd (unfold decide_versioned in ground (arith, h, e))
      | inr (o, e) ↦ elim (draft-cases o.status) [
        | inr s ↦
            let same =
              decided_unchanged ops now ws id action actor remark expected o d db db' e s h in
            let rows : db'.orders ≡ db.orders = ap (λ (x : Db). x.orders) same.0 in
            record {
              table = subst IsOrderTable (sym rows) t;
              final = λ x _ m. subst (Memᴰ x) (sym rows) m;
            }
        | inl s ↦
            let x = decide_draft ops now ws id actor remark o db e action expected d db' s h in
            record {
              table =
                  subst IsOrderTable (sym x.rows)
                    (update-IsOrderTable _ _ db.orders (λ a. replaces a) t);
              final = λ a c m. subst (Memᴰ a) (sym x.rows) (
                  mem-update_rows (λ b. is_order ws o.id b && is_draft b.status) _ db.orders
                    (ground (arith, c)) m);
            }
      ]
    ]
  where
    replaces :
        (a : Order)
        → Replaces
            (decided_row now
              (decision_of action).0
              (decision_of action).1
              actor
              (kept_note remark)
              db.vendors
              a)
            a
    replaces a =
        unfold decided_row in
        record { id = refl; workspace = refl; vendor = refl; closed = λ _. decision_closes action }

step-Holds : (db db' : Db) → OrderStep db db' → IsOrderTable db.orders → Holds db.orders db'.orders
step-Holds db db' (checks ops r show show_id new_id now ws collate revision inj fresh e) t =
    subst (λ (x : Db). Holds db.orders x.orders) e
      (record {
        table =
            prepare_drafts-IsOrderTable ops r show show_id new_id now ws revision inj collate db
              fresh t;
        final = λ o c m.
            prepare_drafts_settled ops r show show_id new_id now ws revision inj collate db fresh t
              o (ground (arith, c)) m;
      })
step-Holds db db' (decides ops now ws id action actor remark expected d h) t =
    decision-Holds ops now ws id action actor remark expected d db db' h t

-- From a table of orders with one row for an identifier and one draft for a vendor, every sequence of
-- checks and decisions leads to such a table again, and leaves each order as it is that is approved,
-- rejected or withdrawn.
pub history-Holds :
    {db db' : Db} → OrderHistory db db' → IsOrderTable db.orders → Holds db.orders db'.orders
history-Holds stop t = record { table = t; final = λ _ _ m. m }
history-Holds (call h s) t =
    let x = history-Holds h t in
    let y = step-Holds _ _ s x.table in
    record { table = y.table; final = λ o c m. y.final o c (x.final o c m) }
