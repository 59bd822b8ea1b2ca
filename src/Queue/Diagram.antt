-- ===== src/Queue/Diagram.antt =====
-- The lifecycle diagram of a run, and the place of each row function of the queue in it.
use backhaus_ai_backend.Base.{
  ℕ, ◌≡◌, refl, Bool, true, false, List, arith, inl, inr, Option, some, String, Bool-cases, Memᴰ,
  update_rows, mem-update_rows, mem-update_rows_hit,
}
use backhaus_ai_backend.Base.Json.{Json}
use backhaus_ai_backend.Store.{
  Db, RunRow, Status, queued, running, paused, completed, failed, cancelled,
}
use backhaus_ai_backend.Jobs.{Run, owned, unfinished}
use backhaus_ai_backend.Jobs.Claim.{Lane, recovered_row, lapsed, eligible, claimed_row}
use backhaus_ai_backend.Jobs.Control.{
  Action, pause, resume, cancel, next_status, finished_row, outcome, held, released_row,
}
use backhaus_ai_backend.Conversations.{archived_row}
use backhaus_ai_backend.Queue.{
  Call, claiming, finishing, releasing, operating, archiving, switching_on, switching_off, checking,
}
use backhaus_ai_backend.ScopedAgents.Checks.{waiting_review, superseded_row}
use backhaus_ai_backend.ScopedAgents.{parked, resumed_row, pausable, parked_row}

-- The diagram of the statuses: where a call may bring a run in one write.
unfoldable pub may_become : Call → Status → Status → Bool
may_become claiming queued running = true
may_become claiming running queued = true
may_become claiming running failed = true
may_become finishing running completed = true
may_become finishing running failed = true
may_become finishing running queued = true
may_become releasing running queued = true
may_become (operating pause) queued paused = true
may_become (operating pause) running paused = true
may_become (operating resume) paused queued = true
may_become (operating cancel) queued cancelled = true
may_become (operating cancel) running cancelled = true
may_become (operating cancel) paused cancelled = true
may_become archiving queued cancelled = true
may_become archiving running cancelled = true
may_become archiving paused cancelled = true
may_become switching_on paused queued = true
may_become switching_off queued paused = true
may_become switching_off running paused = true
may_become checking queued cancelled = true
may_become _ queued queued = true
may_become _ running running = true
may_become _ paused paused = true
may_become _ completed completed = true
may_become _ failed failed = true
may_become _ cancelled cancelled = true
may_become _ _ _ = false

-- The writes of one call: a claim recovers lapsed runs first.
pub data Evolves (k : Call) (s : Status) : Status → Type 0 where
  stays : Evolves k s s
  goes : {t u : Status} → Evolves k s t → may_become k t u ≡ true → Evolves k s u

pub Evolves-trans : {k : Call} {s t u : Status} → Evolves k s t → Evolves k t u → Evolves k s u
Evolves-trans e stays = e
Evolves-trans e (goes f h) = goes (Evolves-trans e f) h

-- The table still has the run, in a status that the diagram leads to for the call.
pub record Lives (k : Call) (a : RunRow) (rs : List RunRow) : Type 0 where
  pub row : RunRow
  pub mem : Memᴰ row rs
  pub id : row.id ≡ a.id
  pub path : Evolves k a.status row.status

pub may_become_refl : (k : Call) (s : Status) → may_become k s s ≡ true
unfolding may_become
may_become_refl k s = ground arith

abbrev pub One : Call → (RunRow → Bool) → (RunRow → RunRow) → RunRow → Type 0
One k p f a = p a ≡ true → ((f a).id ≡ a.id) × (may_become k a.status (f a).status ≡ true)

pub update-Lives :
    {c : Call} (p : RunRow → Bool) (f : RunRow → RunRow) (rs : List RunRow) (a : RunRow)
    → One c p f a
    → Memᴰ a rs
    → Lives c a (update_rows p f rs)
update-Lives p f rs a k m = elim (Bool-cases (p a)) [
  | inl e ↦ record {
    row = f a;
    mem = mem-update_rows_hit p f rs e m;
    id = (k e).0;
    path = goes stays (k e).1;
  }
  | inr e ↦ record { row = a; mem = mem-update_rows p f rs e m; id = refl; path = stays }
]

pub recover-One :
    (now : ℕ) (ws : String) (a : RunRow) → One claiming (lapsed now ws) (recovered_row now) a
unfolding recovered_row may_become
recover-One now ws a h = (refl, ground arith)

pub claim-one :
    (now lease : ℕ) (ws : String) (lane : Lane) (on : Bool) (a : RunRow)
    → eligible now ws lane on a ≡ true
    → may_become claiming a.status (claimed_row now lease a).status ≡ true
unfolding claimed_row eligible may_become
claim-one now lease ws lane on a h = ground arith

pub finish-One :
    (now : ℕ) (run : Run) (j : Option Json) (e : Option String) (a : RunRow)
    → One finishing (owned now run) (finished_row now (outcome run e) j e) a
unfolding finished_row outcome owned may_become
finish-One now run j e a h = (refl, ground arith)

pub release-One : (now : ℕ) (run : Run) (a : RunRow) → One releasing (held run) (released_row now) a
unfolding released_row held may_become
release-One now run a h = (refl, ground arith)

pub control-one :
    (now : ℕ) (act : Action) (st : Status) (a : RunRow)
    → next_status act a.status ≡ some st
    → may_become (operating act) a.status st ≡ true
unfolding next_status may_become
control-one now act st a h = ground arith

pub archive-One :
    (now : ℕ) (db : Db) (ws : String) (conv : ℕ) (a : RunRow)
    → One archiving (unfinished ws conv) (archived_row now db.events) a
unfolding archived_row may_become
archive-One now db ws conv a h = (refl, ground arith)

pub resume-One :
    (now : ℕ) (ws : String) (a : RunRow) → One switching_on (parked ws) (resumed_row now) a
unfolding resumed_row parked may_become
resume-One now ws a h = (refl, ground arith)

pub park-One :
    (now : ℕ) (ws : String) (a : RunRow) → One switching_off (pausable ws) (parked_row now) a
unfolding parked_row pausable may_become
park-One now ws a h = (refl, ground arith)

pub check-One :
    (now : ℕ) (ws : String) (a : RunRow) → One checking (waiting_review ws) (superseded_row now) a
unfolding superseded_row may_become
check-One now ws a h = (refl, ground arith)
