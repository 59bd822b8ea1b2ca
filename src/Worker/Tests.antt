-- ===== src/Worker/Tests.antt =====
-- The theorems on the worker at a concrete input.
use backhaus_ai_backend.Base.{◌≡◌, ◌↔◌, refl, true, false, ◌++◌, some, [], ◌∷◌, any_row}
use backhaus_ai_backend.Base.Json.{null}
use backhaus_ai_backend.Base.Result.{ok}
use backhaus_ai_backend.Worker.{
  Worker, cancel, text_delta, tool_call, completed, cancelled, abort_run, send, same_run, ended,
}
use backhaus_ai_backend.Worker.Abort.{IsDrained, writes_next, abort_run_lem, abort_run_iff}

abbrev busy : Worker
busy = record {
  active_run = some "r1";
  incoming =
      text_delta "r1" "hel"
      ∷ tool_call "r1" "c1" "stock" null
      ∷ completed "r0" "" "" 1
      ∷ cancelled "r1"
      ∷ text_delta "r2" "x"
      ∷ [];
  sent = [];
  writes = true ∷ false ∷ [];
  sdk_version = "1";
}

abbrev idle : Worker
idle = (abort_run "r1" busy).1

aborted : abort_run "r1" busy ≡ (ok tt, idle)
unfolding abort_run
aborted = refl

one_left : idle.incoming ≡ text_delta "r2" "x" ∷ []
unfolding abort_run
one_left = refl

-- The refusal of the tool call is lost, and the run is aborted all the same.
refusal_lost : idle.sent ≡ cancel "r1" ∷ []
unfolding abort_run
refusal_lost = refl

abort_run_lem_example :
    IsDrained "r1" busy.incoming (send (cancel "r1") busy).1 idle
    × (writes_next busy ≡ true)
    × ((send (cancel "r1") busy).1.sent ≡ busy.sent ++ cancel "r1" ∷ [])
abort_run_lem_example = abort_run_lem "r1" busy idle refl aborted

abort_run_iff_example : ((abort_run "r1" busy).0 ≡ ok tt) ↔ (
    (writes_next busy ≡ true)
    × (any_row (λ m. same_run (ended m) (some "r1")) busy.incoming ≡ true))
abort_run_iff_example = abort_run_iff "r1" busy refl
