-- ===== src/Queue/Sound.antt =====
-- Every operation keeps the queue sound.
use backhaus_ai_backend.Base.{
  ℕ, ◌+◌, ◌≡◌, refl, sym, subst, Bool, true, List, arith, inl, inr, Option, some, String, ◌==◌,
  Bool-cases, Option-cases, Memᴰ, ==_iff, count_rows, update_rows, Pairs, All,
}
use backhaus_ai_backend.Base.Json.{Json}
use backhaus_ai_backend.Store.{Db, RunRow, EventRow, Status}
use backhaus_ai_backend.Jobs.{Run, heartbeat, unfinished, owned, seconds}
use backhaus_ai_backend.Jobs.Claim.{
  Lane, claim_in_lane, lapsed, recover, recovered_row, take_first, first_by, eligible,
  procurement_on, claimed_row,
}
use backhaus_ai_backend.Jobs.Control.{
  finish, release_for, held, released_row, finished_row, outcome, controlled_row, next_status,
  Action,
}
use backhaus_ai_backend.Conversations.{archived_row}
use backhaus_ai_backend.ScopedAgents.{parked, resumed_row, pausable, parked_row}
use backhaus_ai_backend.Queue.{IsLeased, Apart, IsSound}
use backhaus_ai_backend.Queue.First.{first_by-mem, first_by-holds}
use backhaus_ai_backend.Queue.Keeps.{Keeps, update-IsSound, same_id}

-- The row functions, one by one.
recovered-Keeps :
    (now : ℕ) (ws : String) (a : RunRow) → lapsed now ws a ≡ true → Keeps a (recovered_row now a)
unfolding recovered_row
recovered-Keeps now ws a h = ground arith

recovered-IsLeased : (now : ℕ) (a : RunRow) → IsLeased (recovered_row now a)
unfolding recovered_row
recovered-IsLeased now a = ground arith

claimed-IsLeased : (now lease : ℕ) (a : RunRow) → IsLeased (claimed_row now lease a)
unfolding claimed_row
claimed-IsLeased now lease a = ground arith

finished-Keeps :
    (now : ℕ) (run : Run) (st : Status) (j : Option Json) (e : Option String) (a : RunRow)
    → owned now run a ≡ true
    → Keeps a (finished_row now st j e a)
unfolding finished_row owned
finished-Keeps now run st j e a h = ground arith

finished-IsLeased :
    (now : ℕ) (run : Run) (j : Option Json) (e : Option String) (a : RunRow)
    → IsLeased (finished_row now (outcome run e) j e a)
unfolding finished_row outcome
finished-IsLeased now run j e a = ground arith

released-Keeps :
    (now : ℕ) (run : Run) (a : RunRow) → held run a ≡ true → Keeps a (released_row now a)
unfolding released_row held
released-Keeps now run a h = ground arith

released-IsLeased : (now : ℕ) (a : RunRow) → IsLeased (released_row now a)
unfolding released_row
released-IsLeased now a = ground arith

pub controlled-IsLeased :
    (now : ℕ) (act : Action) (st next : Status) (a : RunRow)
    → next_status act st ≡ some next
    → IsLeased (controlled_row now next a)
unfolding controlled_row next_status
controlled-IsLeased now act st next a h = ground arith

pub archived-Keeps :
    (now : ℕ) (es : List EventRow) (ws : String) (conv : ℕ) (a : RunRow)
    → unfinished ws conv a ≡ true
    → Keeps a (archived_row now es a)
unfolding archived_row
archived-Keeps now es ws conv a h = ground arith

pub archived-IsLeased :
    (now : ℕ) (es : List EventRow) (ws : String) (conv : ℕ) (a : RunRow)
    → unfinished ws conv a ≡ true
    → IsLeased (archived_row now es a)
unfolding archived_row
archived-IsLeased now es ws conv a h = ground arith

pub resumed-Keeps :
    (now : ℕ) (ws : String) (a : RunRow) → parked ws a ≡ true → Keeps a (resumed_row now a)
unfolding resumed_row parked
resumed-Keeps now ws a h = ground arith

pub resumed-IsLeased :
    (now : ℕ) (ws : String) (a : RunRow)
    → parked ws a ≡ true
    → IsLeased a
    → IsLeased (resumed_row now a)
unfolding resumed_row parked
resumed-IsLeased now ws a h l = ground arith

pub parked-Keeps :
    (now : ℕ) (ws : String) (a : RunRow) → pausable ws a ≡ true → Keeps a (parked_row now a)
unfolding parked_row pausable
parked-Keeps now ws a h = ground arith

pub parked-IsLeased : (now : ℕ) (ws : String) (a : RunRow) → IsLeased (parked_row now a)
unfolding parked_row
parked-IsLeased now ws a = ground arith

beat-Keeps :
    (now : ℕ) (run : Run) (a : RunRow)
    → owned now run a ≡ true
    → Keeps a (record a { lease_until = some (now + seconds 30) })
unfolding owned
beat-Keeps now run a h = ground arith

beat-IsLeased :
    (now : ℕ) (run : Run) (a : RunRow)
    → owned now run a ≡ true
    → IsLeased a
    → IsLeased (record a { lease_until = some (now + seconds 30) })
unfolding owned
beat-IsLeased now run a h l = ground arith

-- A statement that names one row by its id.
pub by_id :
    (db : Db) (r : RunRow) (p : RunRow → Bool) (g : RunRow → RunRow)
    → ((a : RunRow) → p a ≡ true → a.id ≡ r.id)
    → Memᴰ r db.runs
    → IsLeased (g r)
    → Keeps r (g r)
    → IsSound db
    → All IsLeased (update_rows p g db.runs) × Pairs Apart (update_rows p g db.runs)
by_id db r p g i m l k s =
    update-IsSound db _ p g refl
      (λ a n t _. subst (λ y. IsLeased (g y)) (same_id db.runs r a s.apart m n (sym (i a t))) l)
      (λ a n t. subst (λ y. Keeps y (g y)) (same_id db.runs r a s.apart m n (sym (i a t))) k) s

pub recover-IsSound : (now : ℕ) (ws : String) (db : Db) → IsSound db → IsSound (recover now ws db)
unfolding recover
recover-IsSound now ws db s =
    let h =
      update-IsSound db _ (lapsed now ws) (recovered_row now) refl
        (λ a _ _ _. recovered-IsLeased now a) (λ a _ t. recovered-Keeps now ws a t) s in
    record { leased = h.0; apart = h.1 }

claimed-Keeps :
    (now lease : ℕ) (ws : String) (lane : Lane) (on : Bool) (r : RunRow)
    → eligible now ws lane on r ≡ true
    → Keeps r (claimed_row now lease r)
unfolding claimed_row eligible
claimed-Keeps now lease ws lane on r h = ground arith

take_first-IsSound :
    (now lease : ℕ) (ws : String) (lane : Lane) (db : Db)
    → IsSound db
    → IsSound (take_first now lease ws lane db).1
unfolding take_first
take_first-IsSound now lease ws lane db s = elim (Option-cases (first_by p db.runs)) [
  | inl e ↦ rw (e, take_first) s
  | inr (r, e) ↦ rw (e, take_first) (record { leased = (both r e).0; apart = (both r e).1 })
]
  where
    p : RunRow → Bool
    p = eligible now ws lane (procurement_on ws db.agents)

    both :
        (r : RunRow)
        → first_by p db.runs ≡ some r
        → All IsLeased (update_rows (λ a. a.id == r.id) (claimed_row now lease) db.runs)
          × Pairs Apart (update_rows (λ a. a.id == r.id) (claimed_row now lease) db.runs)
    both r e =
        by_id db r _ (claimed_row now lease) (λ a t. (==_iff a.id r.id).0 t)
          (first_by-mem p db.runs e) (claimed-IsLeased now lease r)
          (claimed-Keeps now lease ws lane _ r (first_by-holds p db.runs e)) s

pub claim-IsSound :
    (now lease : ℕ) (ws : String) (lane : Lane) (db : Db)
    → IsSound db
    → IsSound (claim_in_lane now lease ws lane db).1
unfolding claim_in_lane
claim-IsSound now lease ws lane db s =
    take_first-IsSound now lease ws lane (recover now ws db) (recover-IsSound now ws db s)

pub heartbeat-IsSound :
    (now : ℕ) (run : Run) (db : Db) → IsSound db → IsSound (heartbeat now run db).1
unfolding heartbeat
heartbeat-IsSound now run db s =
    let h =
      update-IsSound db _ (owned now run) (λ r. record r { lease_until = some (now + seconds 30) })
        refl (λ a _ t l. beat-IsLeased now run a t l) (λ a _ t. beat-Keeps now run a t) s in
    record { leased = h.0; apart = h.1 }

pub finish-IsSound :
    (now : ℕ) (run : Run) (j : Option Json) (e : Option String) (db : Db)
    → IsSound db
    → IsSound (finish now run j e db)
unfolding finish
finish-IsSound now run j e db s =
    let h =
      update-IsSound db _ (owned now run) (finished_row now (outcome run e) j e) refl
        (λ a _ _ _. finished-IsLeased now run j e a)
        (λ a _ t. finished-Keeps now run (outcome run e) j e a t) s in
    elim (Bool-cases (count_rows (owned now run) db.runs == 1)) [
      | inl c ↦ rw c (record { leased = h.0; apart = h.1 })
      | inr c ↦ rw c (record { leased = h.0; apart = h.1 })
    ]

pub release_for-IsSound :
    (now : ℕ) (run : Run) (reason : String) (db : Db)
    → IsSound db
    → IsSound (release_for now run reason db)
unfolding release_for
release_for-IsSound now run reason db s =
    let h =
      update-IsSound db _ (held run) (released_row now) refl (λ a _ _ _. released-IsLeased now a)
        (λ a _ t. released-Keeps now run a t) s in
    elim (Bool-cases (count_rows (held run) db.runs == 1)) [
      | inl c ↦ rw c (record { leased = h.0; apart = h.1 })
      | inr c ↦ rw c (record { leased = h.0; apart = h.1 })
    ]
