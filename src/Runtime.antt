-- ===== src/Runtime.antt =====
-- src/runtime.rs: one cycle of the monitor task, between two of its waits.
use backhaus_ai_backend.Base.{ℕ, zero, suc, Bool, true, false, List, String}
use backhaus_ai_backend.Base.Json.{Json}
use backhaus_ai_backend.Base.Result.{Result, ok, err}
use backhaus_ai_backend.Decimal.{Arithmetic, Rounding}
use backhaus_ai_backend.Store.{Db}
use backhaus_ai_backend.Store.Stock.{Item}
use backhaus_ai_backend.ScopedAgents.Checks.{heartbeat, check_one}

-- `new_id` draws the identifiers of the orders of a round, `run_id` that of its review.
module _ (ops : Arithmetic) (r : Rounding) (show show_id : ℕ → String) (new_id : ℕ → ℕ → ℕ)
    (collate : List Item → List Item) (observe_sales : Json) (now : ℕ) (run_id : ℕ → ℕ)
    (ws : String) where
  -- `for _ in 0..2` from the round that is given; the number counts the rounds left.
  unfoldable pub rounds : Bool → ℕ → Db → Result Db
  rounds review zero db = ok db
  rounds review (suc n) db =
      elim (check_one ops r show show_id (new_id n) collate observe_sales now (run_id n) ws review
        db) [ err e ↦ err e | ok (false, db') ↦ ok db' | ok (true, db') ↦ rounds review n db' ]

  unfoldable pub cycle : Bool → ℕ → Db → Result Db
  unfolding rounds heartbeat
  cycle review instance db = rounds review 2 (heartbeat now ws instance db)
