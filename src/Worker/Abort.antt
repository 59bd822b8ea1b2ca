-- ===== src/Worker/Abort.antt =====
-- What a run that was cancelled leaves in the worker.
use mathlib.Core.List.{append-nil, append_assoc}
use backhaus_ai_backend.Base.{
  Bool, false, ◌⊎◌, ◌≡◌, refl, ap, ◌∙◌, true, false, none, some, List, [], ◌∷◌, ◌++◌, String,
  str_eq, arith, All, any_row, ◌↔◌, Bool-cases, inl, inr, if◌then◌else◌,
}
use backhaus_ai_backend.Base.Text.{str_eq_refl}
use backhaus_ai_backend.Base.Result.{ok}
use backhaus_ai_backend.Worker.{
  Worker, Inbound, Outbound, tool_call, tool_result, cancel, abort_run, drain, send, received,
  refuse, ended, same_run,
}

-- The answers to the tool calls of a run among some messages.
abbrev refusal : String → Outbound → List Inbound
refusal run_id (tool_call id call_id _ _) =
    if str_eq id run_id then tool_result run_id call_id none (some "Run cancelled") ∷ [] else []
refusal run_id _ = []

abbrev pub refusals : String → List Outbound → List Inbound
refusals run_id [] = []
refusals run_id (m ∷ ms) = refusal run_id m ++ refusals run_id ms

-- Of some messages those whose write comes through.
abbrev pub came_through : List Bool → List Inbound → List Inbound
came_through [] ms = []
came_through (b ∷ bs) [] = []
came_through (b ∷ bs) (m ∷ ms) = (if b then m ∷ [] else []) ++ came_through bs ms

-- The first write comes through.
abbrev pub writes_next : Worker → Bool
writes_next w = elim w.writes [ [] ↦ false | b ∷ _ ↦ b ]

-- The messages split at the first that ends the run.
pub record IsDrained (run_id : String) (ms : List Outbound) (w w' : Worker) : Type 0 where
  pub before : List Outbound
  pub last : Outbound
  pub split : ms ≡ before ++ last ∷ w'.incoming
  pub earlier : All (λ m. same_run (ended m) (some run_id) ≡ false) before
  pub final : same_run (ended last) (some run_id) ≡ true
  pub answered : w'.sent ≡ w.sent ++ came_through w.writes (refusals run_id before)
  pub idle : w'.active_run ≡ none

-- Nothing is written where nothing is to be.
came_through-nothing : (bs : List Bool) → came_through bs [] ≡ []
came_through-nothing [] = refl
came_through-nothing (b ∷ bs) = refl

writes_cases : (bs : List Bool) → (bs ≡ []) ⊎ ((b : Bool) × (cs : List Bool) × (bs ≡ b ∷ cs))
writes_cases [] = inl refl
writes_cases (b ∷ bs) = inr (b, bs, refl)

-- A message that does not end the run: the worker goes on with the run, and what it writes with all the
-- later messages is what comes through of the refusals.
step :
    (run_id : String) (m : Outbound) (ms : List Outbound) (w : Worker)
    → w.active_run ≡ some run_id
    → same_run (ended m) (some run_id) ≡ false
    → let w1 : Worker = refuse run_id m (received m (record w { incoming = ms })) in
      (w1.active_run ≡ some run_id)
      × ((rest : List Inbound)
          → w1.sent ++ came_through w1.writes rest
            ≡ w.sent ++ came_through w.writes (refusal run_id m ++ rest))
unfolding refuse received
step run_id (Outbound.ready p s) ms w a t = (ground (arith, t), λ rest. refl)
step run_id (Outbound.text_delta r s) ms w a t = (ground (arith, t), λ rest. refl)
step run_id (tool_call id call_id name input) ms w a t = elim (Bool-cases (str_eq id run_id)) [
  | inr e ↦ rw e (ground arith, λ rest. refl)
  | inl e ↦ elim (writes_cases w.writes) [
    | inl n ↦ rw (e, n, send) (ground arith, λ rest. rw n refl)
    | inr (true, bs, n) ↦
        rw (e, n, send)
          (
            ground arith,
            λ rest.
                append_assoc w.sent (tool_result run_id call_id none (some "Run cancelled") ∷ [])
                  (came_through bs rest),
          )
    | inr (false, bs, n) ↦ rw (e, n, send) (ground arith, λ rest. refl)
  ]
]
step run_id (Outbound.completed r s u n) ms w a t = (ground (arith, t), λ rest. refl)
step run_id (Outbound.failed r s u) ms w a t = (ground (arith, t), λ rest. refl)
step run_id (Outbound.cancelled r) ms w a t = (ground (arith, t), λ rest. refl)

drain-IsDrained :
    (run_id : String) (ms : List Outbound) (w w' : Worker)
    → w.active_run ≡ some run_id
    → drain run_id ms w ≡ (true, w')
    → IsDrained run_id ms w w'
unfolding drain
drain-IsDrained run_id [] w w' a e = absurd (ground arith)
drain-IsDrained run_id (m ∷ ms) w w' a e = elim (Bool-cases (same_run (ended m) (some run_id))) [
  | inl t ↦ record {
    before = [];
    last = m;
    split = unfold received in ground (arith, t);
    earlier = tt;
    final = t;
    answered =
        unfold received in ground (arith, t, append-nil w.sent, came_through-nothing w.writes);
    idle = unfold received in ground (arith, t);
  }
  | inr t ↦
      let w1 : Worker = refuse run_id m (received m (record w { incoming = ms })) in
      let on = step run_id m ms w a t in
      let d = drain-IsDrained run_id ms w1 w' on.0 (ground (arith, t)) in
      record {
        before = m ∷ d.before;
        last = d.last;
        split = ap (λ xs. m ∷ xs) d.split;
        earlier = (t, d.earlier);
        final = d.final;
        answered = d.answered ∙ on.1 (refusals run_id d.before);
        idle = d.idle;
      }
]

-- When `abort_run` returns for the run that is active, the request to cancel was written, the messages
-- up to the first that ends the run are read and no others, nothing is written after the request but
-- those refusals of the tool calls of the run among them whose write comes through, in order, and the
-- worker has no active run.
pub abort_run_lem :
    (run_id : String) (w w' : Worker)
    → w.active_run ≡ some run_id
    → abort_run run_id w ≡ (ok tt, w')
    → IsDrained run_id w.incoming (send (cancel run_id) w).1 w'
      × (writes_next w ≡ true)
      × ((send (cancel run_id) w).1.sent ≡ w.sent ++ cancel run_id ∷ [])
unfolding abort_run
abort_run_lem run_id w w' a e = elim (writes_cases w.writes) [
  | inl n ↦ absurd (unfold send in ground (arith, n, a, str_eq_refl run_id))
  | inr (false, bs, n) ↦ absurd (unfold send in ground (arith, n, a, str_eq_refl run_id))
  | inr (true, bs, n) ↦ elim (Bool-cases (drain run_id w.incoming (send (cancel run_id) w).1).0) [
    | inl d ↦ (
      drain-IsDrained run_id w.incoming (send (cancel run_id) w).1 w'
          (unfold send in ground (arith, n, a))
          (unfold send in ground (arith, n, a, d, str_eq_refl run_id)),
      ground (arith, n),
      unfold send in ground (arith, n),
    )
    | inr d ↦ absurd (unfold send in ground (arith, n, a, d, str_eq_refl run_id))
  ]
]

drain_found :
    (run_id : String) (ms : List Outbound) (w : Worker)
    → (drain run_id ms w).0 ≡ any_row (λ m. same_run (ended m) (some run_id)) ms
unfolding drain
drain_found run_id [] w = refl
drain_found run_id (m ∷ ms) w = elim (Bool-cases (same_run (ended m) (some run_id))) [
  | inl t ↦ ground (arith, t)
  | inr t ↦
      ground (
        arith,
        t,
        drain_found run_id ms (refuse run_id m (received m (record w { incoming = ms }))),
      )
]

-- `abort_run` of the active run returns exactly if the request to cancel is written and a message that
-- ends the run arrives in time; else it is an error. Whether a refusal is written plays no part.
pub abort_run_iff :
    (run_id : String) (w : Worker)
    → w.active_run ≡ some run_id
    → ((abort_run run_id w).0 ≡ ok tt) ↔ (
        (writes_next w ≡ true)
        × (any_row (λ m. same_run (ended m) (some run_id)) w.incoming ≡ true))
unfolding abort_run
abort_run_iff run_id w a =
    let f = drain_found run_id w.incoming (send (cancel run_id) w).1 in
    elim (writes_cases w.writes) [
      | inl n ↦ unfold send in ground (arith, a, n, f, str_eq_refl run_id)
      | inr (true, bs, n) ↦ unfold send in ground (arith, a, n, f, str_eq_refl run_id)
      | inr (false, bs, n) ↦ unfold send in ground (arith, a, n, f, str_eq_refl run_id)
    ]
