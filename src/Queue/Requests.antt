-- ===== src/Queue/Requests.antt =====
-- Idempotency of `enqueue` by its request key.
use backhaus_ai_backend.Base.{
  ℕ, ◌≡◌, true, false, arith, inl, inr, some, String, if◌then◌else◌, Option-cases, find_row,
  find_row-append,
}
use backhaus_ai_backend.Base.Text.{str_eq_refl}
use backhaus_ai_backend.Base.Json.{Json, json_eq}
use backhaus_ai_backend.Base.Result.{ok, err, conflict}
use backhaus_ai_backend.Store.{Db, chat}
use backhaus_ai_backend.Jobs.{Enqueued, has_key, enqueue, new_run}

-- After a request has started a run, the same key from the same conversation starts nothing, at
-- whatever time, as long as nothing else has happened: with the same input it is given the first run
-- back and the tables stay as they are, with another input it conflicts.
pub enqueue_again :
    (now id later id' : ℕ) (ws : String) (conv : ℕ) (key : String) (input again : Json)
    (e : Enqueued) (db db' : Db)
    → enqueue now id ws conv key input db ≡ ok (e, db')
    → e.reused ≡ false
    → enqueue later id' ws conv key again db' ≡ (
        if json_eq input again
        then ok (record { run_id = e.run_id; conversation_id = conv; reused = true }, db')
        else err conflict)
unfolding enqueue
enqueue_again now id later id' ws conv key input again e db db' h n =
    elim (Option-cases (find_row (has_key ws key) db.runs)) [
      | inr (row, f) ↦ absurd (ground arith)
      | inl f ↦ ground (
        arith,
        find_row-append (has_key ws key) db.runs (new_run now id ws (some conv) key input chat) f,
        str_eq_refl ws,
        str_eq_refl key,
      )
    ]
