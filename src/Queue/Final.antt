-- ===== src/Queue/Final.antt =====
-- The life of one run through any history of the queue.
use backhaus_ai_backend.Base.{
  ℕ, ◌+◌, ◌≡◌, refl, sym, subst, ◌∙◌, Bool, true, false, List, [], ◌∷◌, arith, inl, inr, Option,
  some, String, ◌==◌, ==_iff, Bool-cases, Option-cases, Memᴰ, any_row, find_row-mem, find_row_sound,
  count_rows, update_rows,
}
use mathlib.Core.List.Memᴰ
use backhaus_ai_backend.Base.Json.{Json}
use backhaus_ai_backend.Base.Result.{ok}
use backhaus_ai_backend.Store.{Db, RunRow, Kind, Status, is_terminal}
use backhaus_ai_backend.Jobs.{
  Run, Enqueued, enqueue, heartbeat, event, owned, seconds, insert_run, enqueue_system, has_key,
  unfinished,
}
use backhaus_ai_backend.Jobs.Claim.{
  Lane, recover, recovered_row, lapsed, take_first, first_by, eligible, procurement_on, claimed_row,
  claim_in_lane,
}
use backhaus_ai_backend.Jobs.Control.{
  Action, control, is_run, controlled_row, finish, finished_row, outcome, held, release_for,
  released_row,
}
use backhaus_ai_backend.Conversations.{archive, archived_row}
use backhaus_ai_backend.ScopedAgents.{parked, resumed_row, pausable, parked_row, shift_jobs}
use backhaus_ai_backend.Queue.{
  IsSound, Step, Reach, here, next, enqueues, enqueues_system, claims, beats, reports, finishes,
  releases, controls, archives, switches, checks, Call, call, adding, claiming, finishing,
  releasing, operating, checking, shift_call, turns_on,
}
use backhaus_ai_backend.Queue.Diagram.{
  may_become, Evolves, stays, goes, Evolves-trans, Lives, One, may_become_refl, update-Lives,
  recover-One, claim-one, finish-One, release-One, control-one, archive-One, resume-One, park-One,
  check-One,
}
use backhaus_ai_backend.ScopedAgents.Checks.{
  waiting_review, superseded_row, supersede, queue_review,
}
use backhaus_ai_backend.ScopedAgents.Reviews.{check_one_runs}
use backhaus_ai_backend.Queue.First.{first_by-mem, first_by-holds}
use backhaus_ai_backend.Queue.Keeps.{same_id}
use backhaus_ai_backend.Queue.Insert.{enqueue_cases}
use backhaus_ai_backend.Queue.Sound.{recover-IsSound}
use backhaus_ai_backend.Queue.Steps.{control-Controlled, switched, Reach-IsSound}

stay : {c : Call} (a : RunRow) (rs : List RunRow) → Memᴰ a rs → Lives c a rs
stay a rs m = record { row = a; mem = m; id = refl; path = stays }

Lives-trans :
    {c : Call} (a : RunRow) (rs ts : List RunRow)
    → (l : Lives c a rs) → Lives c l.row ts
    → Lives c a ts
Lives-trans a rs ts l k = record {
  row = k.row;
  mem = k.mem;
  id = k.id ∙ l.id;
  path = Evolves-trans l.path k.path;
}

take_first-Lives :
    (now lease : ℕ) (ws : String) (lane : Lane) (db : Db) (a : RunRow)
    → IsSound db
    → Memᴰ a db.runs
    → Lives claiming a (take_first now lease ws lane db).1.runs
unfolding take_first
take_first-Lives now lease ws lane db a s m = elim (Option-cases (first_by p db.runs)) [
  | inl e ↦ rw (e, take_first) (stay a db.runs m)
  | inr (r, e) ↦
      rw (e, take_first)
        (update-Lives (λ x. x.id == r.id) (claimed_row now lease) db.runs a (one r e) m)
]
  where
    p : RunRow → Bool
    p = eligible now ws lane (procurement_on ws db.agents)

    one :
        (r : RunRow)
        → first_by p db.runs ≡ some r
        → One claiming (λ x. x.id == r.id) (claimed_row now lease) a
    one r e t =
        let same : a ≡ r =
          same_id db.runs a r s.apart m (first_by-mem p db.runs e) ((==_iff a.id r.id).0 t) in
        subst
          (λ x.
            ((claimed_row now lease x).id ≡ x.id)
            × (may_become claiming x.status (claimed_row now lease x).status ≡ true))
          (sym same)
          (unfold claimed_row in refl, claim-one now lease ws lane _ r (first_by-holds p db.runs e))

claim-Lives :
    (now lease : ℕ) (ws : String) (lane : Lane) (db : Db) (a : RunRow)
    → IsSound db
    → Memᴰ a db.runs
    → Lives claiming a (claim_in_lane now lease ws lane db).1.runs
unfolding claim_in_lane recover
claim-Lives now lease ws lane db a s m = Lives-trans a (recover now ws db).runs _ l (
    take_first-Lives now lease ws lane (recover now ws db) l.row (recover-IsSound now ws db s)
      l.mem)
  where
    l : Lives claiming a (recover now ws db).runs
    l = update-Lives (lapsed now ws) (recovered_row now) db.runs a (recover-One now ws a) m

control-Lives :
    (now : ℕ) (ws : String) (id : ℕ) (action : Action) (st : Status) (db db' : Db) (a : RunRow)
    → control now ws id action db ≡ ok (st, db')
    → IsSound db
    → Memᴰ a db.runs
    → Lives (operating action) a db'.runs
control-Lives now ws id action st db db' a h s m =
    let c = control-Controlled now ws id action st db db' h in
    subst (Lives (operating action) a) (sym c.runs) (
      update-Lives (is_run ws id) (controlled_row now st) db.runs a
        (λ t.
          let same : a ≡ c.row =
            same_id db.runs a c.row s.apart m (find_row-mem (is_run ws id) db.runs c.found)
              (ground (arith, t, find_row_sound (is_run ws id) db.runs c.found)) in
          (
            unfold controlled_row in refl,
            unfold controlled_row in
                subst (λ x. may_become (operating action) x.status st ≡ true) (sym same)
                  (control-one now action st c.row c.allowed),
          ))
        m)

shift-Lives :
    (now : ℕ) (ws : String) (on : Bool) (db : Db) (a : RunRow)
    → Memᴰ a db.runs
    → Lives (shift_call on) a (shift_jobs now ws on db).runs
unfolding shift_jobs
shift-Lives now ws true db a m =
    update-Lives (parked ws) (resumed_row now) db.runs a (resume-One now ws a) m
shift-Lives now ws false db a m =
    update-Lives (pausable ws) (parked_row now) db.runs a (park-One now ws a) m

finish-Lives :
    (now : ℕ) (run : Run) (j : Option Json) (e : Option String) (db : Db) (a : RunRow)
    → Memᴰ a db.runs
    → Lives finishing a (finish now run j e db).runs
unfolding finish
finish-Lives now run j e db a m = elim (Bool-cases (count_rows (owned now run) db.runs == 1)) [
  | inl c ↦ rw c (
      update-Lives (owned now run) (finished_row now (outcome run e) j e) db.runs a
        (finish-One now run j e a) m)
  | inr c ↦ rw c (
      update-Lives (owned now run) (finished_row now (outcome run e) j e) db.runs a
        (finish-One now run j e a) m)
]

release-Lives :
    (now : ℕ) (run : Run) (reason : String) (db : Db) (a : RunRow)
    → Memᴰ a db.runs
    → Lives releasing a (release_for now run reason db).runs
unfolding release_for
release-Lives now run reason db a m = elim (Bool-cases (count_rows (held run) db.runs == 1)) [
  | inl c ↦ rw c (update-Lives (held run) (released_row now) db.runs a (release-One now run a) m)
  | inr c ↦ rw c (update-Lives (held run) (released_row now) db.runs a (release-One now run a) m)
]

insert-Lives :
    {c : Call} (r : RunRow) (db : Db) (a : RunRow)
    → Memᴰ a db.runs
    → Lives c a (insert_run r db).runs
unfolding insert_run
insert-Lives r db a m = stay a _ (Memᴰ.append_left (r ∷ []) m)

enqueue-Lives :
    (now id : ℕ) (ws : String) (conv : ℕ) (key : String) (input : Json) (e : Enqueued) (db db' : Db)
    (a : RunRow)
    → enqueue now id ws conv key input db ≡ ok (e, db')
    → Memᴰ a db.runs
    → Lives adding a db'.runs
enqueue-Lives now id ws conv key input e db db' a h m =
    elim (enqueue_cases now id ws conv key input e db db' h) [
      | inl same ↦ rw same (stay a db.runs m)
      | inr (new, _, _) ↦ rw new (insert-Lives _ db a m)
    ]

system-Lives :
    {c : Call} (now id : ℕ) (ws : String) (kind : Kind) (key : String) (input : Json) (db : Db)
    (a : RunRow)
    → Memᴰ a db.runs
    → Lives c a (enqueue_system now id ws kind key input db).1.runs
unfolding enqueue_system
system-Lives now id ws kind key input db a m =
    elim (Bool-cases (any_row (has_key ws key) db.runs)) [
      | inl used ↦ rw used (stay a db.runs m)
      | inr new ↦ rw new (insert-Lives _ db a m)
    ]

moved : {c : Call} (a : RunRow) (rs ts : List RunRow) → rs ≡ ts → Lives c a rs → Lives c a ts
moved {c = c} a rs ts e l = subst (Lives c a) e l

review-Lives :
    (show : ℕ → String) (now id : ℕ) (ws : String) (revision : ℕ) (db : Db) (a : RunRow)
    → Memᴰ a db.runs
    → Lives checking a (queue_review show now id ws revision db).runs
unfolding queue_review supersede
review-Lives show now id ws revision db a m =
    let l : Lives checking a (supersede now ws db).runs =
      update-Lives (waiting_review ws) (superseded_row now) db.runs a (check-One now ws a) m in
    Lives-trans a (supersede now ws db).runs _ l
      (system-Lives now id ws _ _ _ (supersede now ws db) l.row l.mem)

-- No call loses a run, and each moves it along the arrows that the diagram has for it: in a sound queue
-- the row of a run is there after a call, with its id, in a status where that call may bring it.
pub call_follows_diagram :
    {db db' : Db} (a : RunRow) (step : Step db db')
    → IsSound db
    → Memᴰ a db.runs
    → Lives (call step) a db'.runs
call_follows_diagram a (enqueues now id ws conv key input e f h) s m =
    enqueue-Lives now id ws conv key input e _ _ a h m
call_follows_diagram a (enqueues_system now id ws kind key input f h) s m =
    subst (λ d. Lives adding a d.runs) h (system-Lives now id ws kind key input _ a m)
call_follows_diagram a (claims now lease ws lane h) s m =
    subst (λ d. Lives claiming a d.runs) h (claim-Lives now lease ws lane _ a s m)
call_follows_diagram {db} a (beats now run h) s m =
    subst (λ d. Lives adding a d.runs) h
      (unfold heartbeat in
        update-Lives (owned now run) (λ r. record r { lease_until = some (now + seconds 30) })
          db.runs a (λ t. (refl, may_become_refl adding a.status)) m)
call_follows_diagram {db} {db'} a (reports now run kind payload h) s m =
    moved a db.runs db'.runs (unfold event in ground arith) (stay a db.runs m)
call_follows_diagram a (finishes now run j e h) s m =
    subst (λ d. Lives finishing a d.runs) h (finish-Lives now run j e _ a m)
call_follows_diagram a (releases now run reason h) s m =
    subst (λ d. Lives releasing a d.runs) h (release-Lives now run reason _ a m)
call_follows_diagram a (controls now ws id action st h) s m =
    control-Lives now ws id action st _ _ a h s m
call_follows_diagram {db} {db'} a (archives now ws conv h) s m =
    moved a (update_rows (unfinished ws conv) (archived_row now db.events) db.runs) db'.runs
      (unfold archive in ground arith)
      (update-Lives (unfinished ws conv) (archived_row now db.events) db.runs a
        (archive-One now db ws conv a) m)
call_follows_diagram {db} {db'} a (switches now ws role action h) s m =
    elim (switched now ws role action db db' h) [
      | inl e ↦ moved a db.runs db'.runs (sym e) (stay a db.runs m)
      | inr (mid, e, shifted) ↦
          subst (λ d. Lives (shift_call (turns_on action)) a d.runs) (sym shifted)
            (shift-Lives now ws (turns_on action) mid a (subst (Memᴰ a) (sym e) m))
    ]
call_follows_diagram {db} {db'} a
      (checks ops r show show_id new_id collate observe now id ws review b f h) s m =
    elim (check_one_runs ops r show show_id new_id collate observe now id ws review db b db' h) [
      | inl e ↦ moved a db.runs db'.runs (sym e) (stay a db.runs m)
      | inr (revision, mid, e, q) ↦
          subst (λ d. Lives checking a d.runs) (sym q)
            (review-Lives show now id ws revision mid a (subst (Memᴰ a) (sym e) m))
    ]

terminal-may_become :
    (k : Call) (s t : Status) → is_terminal s ≡ true → may_become k s t ≡ true → t ≡ s
unfolding may_become
terminal-may_become k s t h e = ground arith

Evolves-terminal : {k : Call} {s t : Status} → is_terminal s ≡ true → Evolves k s t → t ≡ s
Evolves-terminal h stays = refl
Evolves-terminal {k} {s} {t} h (goes {t = u} e g) =
    let same : u ≡ s = Evolves-terminal h e in
    terminal-may_become k s t h (subst (λ x. may_become k x t ≡ true) same g)

-- A run that has completed, failed or been cancelled in a sound queue has that status after every
-- history of calls of the job queue, the conversations and the scoped agents.
pub terminal_final :
    {db db' : Db} (a : RunRow)
    → IsSound db
    → Memᴰ a db.runs
    → is_terminal a.status ≡ true
    → Reach db db'
    → (r : RunRow) × Memᴰ r db'.runs × (r.id ≡ a.id) × (r.status ≡ a.status)
terminal_final a s m t here = (a, m, refl, refl)
terminal_final {db} {db'} a s m t (next {db' = mid} r st) =
    let (x, n, i, e) = terminal_final a s m t r in
    let l : Lives (call st) x db'.runs = call_follows_diagram x st (Reach-IsSound s r) n in
    (
      l.row,
      l.mem,
      l.id ∙ i,
      Evolves-terminal (subst (λ y. is_terminal y ≡ true) (sym e) t) l.path ∙ e,
    )
