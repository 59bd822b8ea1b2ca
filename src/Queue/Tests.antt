-- ===== src/Queue/Tests.antt =====
-- The queue at concrete inputs: one workspace, one conversation.
use backhaus_ai_backend.Base.{
  ◌≡◌, refl, true, false, [], ◌∷◌, ◌++◌, arith, none, some, if◌then◌else◌, Memᴰ,
}
use backhaus_ai_backend.Base.Json.{null, string, object, end, json_eq}
use backhaus_ai_backend.Base.Result.{ok, err, conflict}
use backhaus_ai_backend.Store.{Db, empty_db, RunRow, queued, running, paused, cancelled, chat}
use backhaus_ai_backend.Jobs.{Run, new_run, enqueue, heartbeat, insert_run}
use backhaus_ai_backend.Jobs.Claim.{
  all_lanes, claim_in_lane, recover, claimed, eligible, precedes, procurement_on,
}
use backhaus_ai_backend.Jobs.Control.{pause, resume, control, finish}
use backhaus_ai_backend.Queue.{IsSound, Reach, here, next, claims, controls, beats, claiming}
use backhaus_ai_backend.Queue.Diagram.{Lives}
use backhaus_ai_backend.Queue.Steps.{Step-IsSound}
use backhaus_ai_backend.Queue.Final.{call_follows_diagram, terminal_final}
use backhaus_ai_backend.Queue.Fencing.{IsFenced, control_fences, claim_fences}
use backhaus_ai_backend.Queue.Claims.{claim_first}
use backhaus_ai_backend.Queue.Requests.{enqueue_again}

abbrev idle_db : Db
idle_db = record empty_db {
  conversations = record { id = 7; workspace = "w"; archived_at = none } ∷ [];
}

abbrev asked : RunRow
asked = new_run 10 1 "w" (some 7) "k" null chat

abbrev queued_db : Db
queued_db = insert_run asked idle_db

abbrev worker : Run
worker = record {
  id = 1;
  workspace = "w";
  kind = chat;
  conversation = some 7;
  input = null;
  lease = 5;
  attempt = 1;
}

abbrev running_db : Db
running_db = (claim_in_lane 20 5 "w" all_lanes queued_db).1

enqueued :
    enqueue 10 1 "w" 7 "k" null idle_db
    ≡ ok (record { run_id = 1; conversation_id = 7; reused = false }, queued_db)
unfolding enqueue
enqueued = refl

was_claimed : claim_in_lane 20 5 "w" all_lanes queued_db ≡ (some worker, running_db)
unfolding claim_in_lane insert_run
was_claimed = refl

queued-IsSound : IsSound queued_db
unfolding insert_run
queued-IsSound = record {
  leased = (record { token = refl; until = refl; counted = λ h. cc }, tt);
  apart = (tt, tt);
}

Step-IsSound_example : IsSound running_db
Step-IsSound_example = Step-IsSound (claims 20 5 "w" all_lanes refl) queued-IsSound

asked-mem : Memᴰ asked queued_db.runs
unfolding insert_run
asked-mem = Memᴰ.head refl

call_follows_diagram_example : Lives claiming asked running_db.runs
call_follows_diagram_example =
    call_follows_diagram asked (claims 20 5 "w" all_lanes refl) queued-IsSound asked-mem

abbrev stopped : RunRow
stopped = record asked { status = cancelled }

abbrev stopped_db : Db
stopped_db = record idle_db { runs = stopped ∷ [] }

terminal_final_example :
    (r : RunRow) × Memᴰ r (claim_in_lane 20 5 "w" all_lanes stopped_db).1.runs
    × (r.id ≡ 1)
    × (r.status ≡ cancelled)
terminal_final_example =
    terminal_final stopped
      (record {
        leased = (record { token = refl; until = refl; counted = λ h. cc }, tt);
        apart = (tt, tt);
      })
      (Memᴰ.head refl) refl (next here (claims 20 5 "w" all_lanes refl))

abbrev paused_db : Db
paused_db = record running_db {
  runs = record asked { status = paused; attempt = 1; updated_at = 30 } ∷ [];
  events =
      running_db.events ++ record { run_id = 1; event_type = "paused"; payload = object end } ∷ [];
}

was_paused : control 30 "w" 1 pause running_db ≡ ok (paused, paused_db)
unfolding control claim_in_lane insert_run
was_paused = refl

-- The run is resumed and claimed again, under another lease.
was_resumed :
    control 40 "w" 1 resume paused_db
    ≡ ok (queued, (elim (control 40 "w" 1 resume paused_db) [ ok x ↦ x.1 | err _ ↦ paused_db ]))
unfolding control claim_in_lane insert_run
was_resumed = refl

abbrev resumed_db : Db
resumed_db = elim (control 40 "w" 1 resume paused_db) [ ok x ↦ x.1 | err _ ↦ paused_db ]

abbrev reclaimed_db : Db
reclaimed_db = (claim_in_lane 50 6 "w" all_lanes resumed_db).1

after_pause : Reach paused_db reclaimed_db
after_pause =
    next (next here (controls 40 "w" 1 resume queued was_resumed)) (claims 50 6 "w" all_lanes refl)

control_fences_example : IsFenced 60 worker reclaimed_db
unfolding after_pause
control_fences_example =
    control_fences 30 60 pause paused worker running_db paused_db was_paused after_pause
      ((tt, tt), omega arith)

claim_fences_example : IsFenced 60 (record worker { lease = 4 }) (heartbeat 25 worker running_db).1
claim_fences_example =
    claim_fences 20 5 60 "w" all_lanes worker (record worker { lease = 4 }) queued_db running_db
      was_claimed refl (omega arith) (next here (beats 25 worker refl)) (tt, tt)

asked_stays : Memᴰ asked (recover 20 "w" queued_db).runs
unfolding recover insert_run
asked_stays = Memᴰ.head refl

asked-eligible : eligible 20 "w" all_lanes (procurement_on "w" queued_db.agents) asked ≡ true
unfolding eligible insert_run
asked-eligible = refl

claim_first_example :
    (r : RunRow) × Memᴰ r (recover 20 "w" queued_db).runs
    × (worker ≡ claimed 5 r)
    × (eligible 20 "w" all_lanes (procurement_on "w" queued_db.agents) r ≡ true)
    × ((a : RunRow)
        → Memᴰ a (recover 20 "w" queued_db).runs
        → eligible 20 "w" all_lanes (procurement_on "w" queued_db.agents) a ≡ true
        → precedes r a ≡ true)
claim_first_example = claim_first 20 5 "w" all_lanes worker queued_db running_db was_claimed

abbrev held_row : RunRow
held_row = record asked {
  status = running;
  attempt = 1;
  lease_token = some 5;
  lease_until = some 30000020;
  updated_at = 20;
}

abbrev failed_db : Db
failed_db = finish 25 worker none (some "model_error") running_db

abbrev second_try : Run
second_try = record worker { lease = 6; attempt = 2 }

enqueue_again_example : enqueue 50 2 "w" 7 "k" (string "other") queued_db ≡ (
    if json_eq null (string "other")
    then ok (record { run_id = 1; conversation_id = 7; reused = true }, queued_db)
    else err conflict)
enqueue_again_example =
    enqueue_again 10 1 50 2 "w" 7 "k" null (string "other")
      (record { run_id = 1; conversation_id = 7; reused = false }) idle_db queued_db enqueued refl
