-- ===== src/ScopedAgents/Tests.antt =====
-- The monitors at a concrete database: both roles have a revision to look at.
use backhaus_ai_backend.Base.{ℕ, map, ◌≡◌, refl, true, false, none, [], ◌∷◌, String}
use backhaus_ai_backend.Base.Int.{ℤ, pos, negsuc}
use backhaus_ai_backend.Base.Json.{null}
use backhaus_ai_backend.Base.Result.{ok, err}
use backhaus_ai_backend.Decimal.{Rounding}
use backhaus_ai_backend.Decimal.Exact.{exact}
use backhaus_ai_backend.Store.{
  Db, RunRow, queued, cancelled, inventory_review, ScopedAgent, Role, sales, inventory, empty_db,
}
use backhaus_ai_backend.ScopedAgents.Checks.{
  check_one, check_inventory, queue_review, due, store_check,
}
use backhaus_ai_backend.Purchasing.Check.{prepare_drafts}
use backhaus_ai_backend.Jobs.{new_run, enqueue_system}
use backhaus_ai_backend.ScopedAgents.Once.{pending}
use backhaus_ai_backend.ScopedAgents.Reviews.{control-due}
use backhaus_ai_backend.ScopedAgents.{set_enabled, pause, control}

abbrev as_is : Rounding
as_is = record { mul = λ a b. a; round_dp = λ _ d. d; normalize = λ d. d }

abbrev agent_of : Role → ℤ → ScopedAgent
agent_of role checked = record {
  workspace = "ws";
  role = role;
  enabled = true;
  checked_revision = checked;
  last_checked_at = none;
  observation = none;
}

abbrev waiting_db : Db
waiting_db = record empty_db {
  agents = agent_of inventory (pos 3) ∷ agent_of sales (negsuc 0) ∷ [];
  revisions =
      record { workspace = "ws"; role = inventory; revision = 5 }
      ∷ record { workspace = "ws"; role = sales; revision = 0 }
      ∷ [];
  checks = record { workspace = "ws"; role = inventory; revision = 3; observation = null } ∷ [];
}

abbrev shown : ℕ → String
shown _ = "5"

both_wait : pending "ws" waiting_db ≡ 2
unfolding due
both_wait = refl

-- A review of an earlier revision waits, so the check of the stock supersedes it and queues another.
abbrev old_review : RunRow
old_review = new_run 3 1 "ws" none "inventory-review:3" null inventory_review

abbrev stock_db : Db
stock_db = record waiting_db { runs = old_review ∷ [] }

abbrev reviewed_db : Db
reviewed_db =
    elim (check_one exact as_is shown shown (λ v. v) (λ is. is) null 7 2 "ws" true stock_db) [
      | ok x ↦ x.1
      | err _ ↦ stock_db
    ]

-- The old review is cancelled, the new one waits.
stock_reviewed : map (λ r. r.status) reviewed_db.runs ≡ cancelled ∷ queued ∷ []
unfolding check_one due check_inventory store_check prepare_drafts queue_review enqueue_system
stock_reviewed = refl

abbrev paused_db : Db
paused_db = record waiting_db {
  agents = set_enabled false (agent_of inventory (pos 3)) ∷ agent_of sales (negsuc 0) ∷ [];
}

pauses : control 8 "ws" inventory pause waiting_db ≡ ok (tt, paused_db)
unfolding control
pauses = refl

control-due_example : due "ws" inventory paused_db ≡ none
control-due_example = control-due 8 "ws" inventory waiting_db paused_db pauses
