-- ===== src/Queue/Insert.antt =====
-- A new run clashes with no run of the table, by the tests that `enqueue` makes first.
use backhaus_ai_backend.Base.{
  ℕ, ◌≡◌, false, List, [], ◌∷◌, arith, inl, inr, ◌⊎◌, Option, none, some, String, ◌==◌, any_row,
  find_row, any_row_of_find_row, Option-cases, Bool-cases, Pairs-append, All, All-append,
}
use backhaus_ai_backend.Base.Json.{Json}
use backhaus_ai_backend.Base.Result.{ok}
use backhaus_ai_backend.Store.{Db, RunRow, Kind, chat}
use backhaus_ai_backend.Jobs.{
  Enqueued, has_key, unfinished, enqueue, enqueue_system, insert_run, new_run,
}
use backhaus_ai_backend.Queue.{IsFresh, IsLeased, Apart, IsSound}

new_run-Apart :
    (now id : ℕ) (ws : String) (conv : ℕ) (key : String) (input : Json) (kind : Kind)
    (rs : List RunRow)
    → any_row (λ r. r.id == id) rs ≡ false
    → any_row (has_key ws key) rs ≡ false
    → any_row (unfinished ws conv) rs ≡ false
    → All (λ x. Apart x (new_run now id ws (some conv) key input kind)) rs
new_run-Apart now id ws conv key input kind [] f k u = tt
new_run-Apart now id ws conv key input kind (x ∷ rs) f k u = (
  ground arith,
  new_run-Apart now id ws conv key input kind rs (ground arith) (ground arith) (ground arith),
)

new_system-Apart :
    (now id : ℕ) (ws : String) (key : String) (input : Json) (kind : Kind) (rs : List RunRow)
    → any_row (λ r. r.id == id) rs ≡ false
    → any_row (has_key ws key) rs ≡ false
    → All (λ x. Apart x (new_run now id ws none key input kind)) rs
new_system-Apart now id ws key input kind [] f k = tt
new_system-Apart now id ws key input kind (x ∷ rs) f k =
    (ground arith, new_system-Apart now id ws key input kind rs (ground arith) (ground arith))

insert-IsSound :
    (db : Db) (r : RunRow)
    → IsLeased r
    → All (λ x. Apart x r) db.runs
    → IsSound db
    → IsSound (insert_run r db)
unfolding insert_run
insert-IsSound db r l a s = record {
  leased = All-append IsLeased db.runs (r ∷ []) s.leased (l, tt);
  apart = Pairs-append Apart db.runs r s.apart a;
}

new-IsLeased :
    (now id : ℕ) (ws : String) (conv : Option ℕ) (key : String) (input : Json) (kind : Kind)
    → IsLeased (new_run now id ws conv key input kind)
new-IsLeased now id ws conv key input kind = ground arith

-- A successful `enqueue` found the request, or passed every test and inserted it.
pub enqueue_cases :
    (now id : ℕ) (ws : String) (conv : ℕ) (key : String) (input : Json) (e : Enqueued) (db db' : Db)
    → enqueue now id ws conv key input db ≡ ok (e, db')
    → (db' ≡ db)
      ⊎ ((db' ≡ insert_run (new_run now id ws (some conv) key input chat) db)
          × (any_row (has_key ws key) db.runs ≡ false)
          × (any_row (unfinished ws conv) db.runs ≡ false))
unfolding enqueue
enqueue_cases now id ws conv key input e db db' h =
    elim (Option-cases (find_row (has_key ws key) db.runs)) [
      | inr (row, f) ↦ inl (ground arith)
      | inl f ↦ inr (ground arith, any_row_of_find_row (has_key ws key) db.runs f, ground arith)
    ]

pub enqueue-IsSound :
    (now id : ℕ) (ws : String) (conv : ℕ) (key : String) (input : Json) (e : Enqueued) (db db' : Db)
    → IsFresh id db
    → enqueue now id ws conv key input db ≡ ok (e, db')
    → IsSound db
    → IsSound db'
enqueue-IsSound now id ws conv key input e db db' fresh h s =
    elim (enqueue_cases now id ws conv key input e db db' h) [
      | inl same ↦ rw same s
      | inr (new, k, u) ↦ rw new (
          insert-IsSound db _ (new-IsLeased now id ws (some conv) key input chat)
            (new_run-Apart now id ws conv key input chat db.runs fresh k u) s)
    ]

pub enqueue_system-IsSound :
    (now id : ℕ) (ws : String) (kind : Kind) (key : String) (input : Json) (db : Db)
    → IsFresh id db
    → IsSound db
    → IsSound (enqueue_system now id ws kind key input db).1
unfolding enqueue_system
enqueue_system-IsSound now id ws kind key input db fresh s =
    elim (Bool-cases (any_row (has_key ws key) db.runs)) [
      | inl used ↦ rw used s
      | inr new ↦ rw new (
          insert-IsSound db _ (new-IsLeased now id ws none key input kind)
            (new_system-Apart now id ws key input kind db.runs fresh new) s)
    ]
