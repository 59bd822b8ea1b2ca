-- ===== src/ScopedAgents/Reviews.antt =====
-- What the monitors do to the queue, and what a pause does to the monitors.
use backhaus_ai_backend.Base.{
  ℕ, ◌≡◌, refl, sym, ap, subst, ◌∙◌, ◌⊎◌, inl, inr, Bool, true, false, none, some, List, String,
  ◌==◌, if◌then◌else◌, arith, any_row, find_row, update_rows, count_rows, Bool-cases, Option-cases,
  find_row_sound, find_row-update_rows, find_row-update_rows-none, any_row-update_rows,
}
use backhaus_ai_backend.Base.Json.{Json}
use backhaus_ai_backend.Base.Result.{Result, Error, ok, err}
use backhaus_ai_backend.Decimal.{Arithmetic, Rounding}
use backhaus_ai_backend.Store.{Db, RunRow, Role, sales, inventory, is_procurement_role}
use backhaus_ai_backend.Store.Stock.{Item}
use backhaus_ai_backend.Purchasing.Check.{prepare_drafts}
use backhaus_ai_backend.Purchasing.Check.Frame.{prepare_drafts-Frame}
use backhaus_ai_backend.Purchasing.Findings.{findings_json}
use backhaus_ai_backend.Queue.{IsLeased, IsSound, IsFresh}
use backhaus_ai_backend.Queue.Keeps.{Keeps, update-IsSound}
use backhaus_ai_backend.Queue.Insert.{enqueue_system-IsSound}
use backhaus_ai_backend.ScopedAgents.{is_agent, set_enabled, pause, control, switch, shift_jobs}
use backhaus_ai_backend.ScopedAgents.Once.{store_check_ok}
use backhaus_ai_backend.ScopedAgents.Checks.{
  is_check, is_revision, due, with_check, store_check, waiting_review, superseded_row, supersede,
  queue_review, check_inventory, check_one,
}

superseded-Keeps :
    (now : ℕ) (ws : String) (a : RunRow)
    → waiting_review ws a ≡ true
    → Keeps a (superseded_row now a)
unfolding superseded_row
superseded-Keeps now ws a h = ground arith

superseded-IsLeased :
    (now : ℕ) (ws : String) (a : RunRow)
    → waiting_review ws a ≡ true
    → IsLeased a
    → IsLeased (superseded_row now a)
unfolding superseded_row
superseded-IsLeased now ws a h l = ground arith

Result-cases {ℓ} :
    {A : Type ℓ} (x : Result A) → ((e : Error) × (x ≡ err e)) ⊎ ((a : A) × (x ≡ ok a))
Result-cases (err e) = inl (e, refl)
Result-cases (ok a) = inr (a, refl)

same-IsSound : (a b : Db) → b.runs ≡ a.runs → IsSound a → IsSound b
same-IsSound a b e s = record { leased = rw e s.leased; apart = rw e s.apart }

supersede-IsSound : (now : ℕ) (ws : String) (db : Db) → IsSound db → IsSound (supersede now ws db)
unfolding supersede
supersede-IsSound now ws db s =
    let h =
      update-IsSound db _ (waiting_review ws) (superseded_row now) refl
        (λ a _ t l. superseded-IsLeased now ws a t l) (λ a _ t. superseded-Keeps now ws a t) s in
    record { leased = h.0; apart = h.1 }

review-IsSound :
    (show : ℕ → String) (now id : ℕ) (ws : String) (revision : ℕ) (db : Db)
    → IsFresh id db
    → IsSound db
    → IsSound (queue_review show now id ws revision db)
unfolding queue_review supersede
review-IsSound show now id ws revision db fresh s =
    enqueue_system-IsSound now id ws _ _ _ (supersede now ws db) still_fresh
      (supersede-IsSound now ws db s)
  where
    still_fresh : IsFresh id (supersede now ws db)
    still_fresh =
        any_row-update_rows (λ r. r.id == id) (waiting_review ws) (superseded_row now) db.runs
          (λ a. unfold superseded_row in refl)
        ∙ fresh

module _ (ops : Arithmetic) (r : Rounding) (show show_id : ℕ → String) (new_id : ℕ → ℕ)
    (collate : List Item → List Item) (observe_sales : Json) (now run_id : ℕ) (ws : String)
    (review : Bool) (db : Db) where
  abbrev pub Checked : Db → Type 0
  Checked db' =
      (db'.runs ≡ db.runs)
      ⊎ ((revision : ℕ) × (mid : Db) × (mid.runs ≡ db.runs)
          × (db' ≡ queue_review show now run_id ws revision mid))

  stored_runs :
      (role : Role) (revision : ℕ) (j : Json) (a b : Db)
      → store_check now ws role revision j a ≡ ok b
      → b.runs ≡ a.runs
  stored_runs role revision j a b h =
      elim (Bool-cases (any_row (is_check ws role revision) a.checks)) [
        | inl e ↦ absurd (unfold store_check in ground (arith, h, e))
        | inr e ↦
            let q : ok (with_check now ws role revision j a) ≡ ok b =
              sym (store_check_ok now ws role revision j a e) ∙ h in
            let same : with_check now ws role revision j a ≡ b = ground (arith, q) in
            ap (λ (x : Db). x.runs) (sym same) ∙ (unfold with_check in refl)
      ]

  -- What a check of the stock leaves of the runs: all of them, or the table after the review is queued.
  inventory_runs :
      (revision : ℕ) (db' : Db)
      → check_inventory ops r show show_id new_id collate observe_sales now run_id ws review
          revision db
        ≡ ok db'
      → Checked db'
  unfolding check_inventory
  inventory_runs revision db' h =
      let x = prepare_drafts ops r show show_id new_id now ws collate revision db in
      let f = prepare_drafts-Frame ops r show show_id new_id now ws collate revision db in
      let j = findings_json ops show show_id x.0 in
      let stored : Db = with_check now ws inventory revision j x.1 in
      let final : Db = if review then queue_review show now run_id ws revision stored else stored in
      elim (Bool-cases (any_row (is_check ws inventory revision) x.1.checks)) [
        | inl e ↦ absurd (unfold check_inventory store_check in ground (arith, h, e))
        | inr e ↦
            let answer = store_check_ok now ws inventory revision j x.1 e in
            let kept : stored.runs ≡ x.1.runs = unfold with_check in refl in
            let runs : stored.runs ≡ db.runs = kept ∙ f.runs in
            let q : ok final ≡ ok db' = (rw (check_inventory, answer) refl) ∙ h in
            let same : final ≡ db' = ground (arith, q) in
            subst Checked same (elim (Bool-cases review) [
              | inl t ↦ rw t (inr (revision, stored, runs, refl))
              | inr t ↦ rw t (inl runs)
            ])
      ]

  -- What a round of the monitor leaves of the runs.
  pub check_one_runs :
      (b : Bool) (db' : Db)
      → check_one ops r show show_id new_id collate observe_sales now run_id ws review db
        ≡ ok (b, db')
      → Checked db'
  check_one_runs b db' h = elim (Option-cases (due ws inventory db)) [
    | inr (revision, e) ↦
        elim (Result-cases (
          check_inventory ops r show show_id new_id collate observe_sales now run_id ws review
            revision db)) [
              | inl (x, q) ↦ absurd (unfold check_one in ground (arith, h, e, q))
              | inr (a, q) ↦
                  inventory_runs revision db'
                    (q ∙ ap (λ x. ok x) (unfold check_one in ground (arith, h, e, q)))
            ]
    | inl e ↦ elim (Option-cases (due ws sales db)) [
      | inl f ↦
          let same : db ≡ db' = unfold check_one in ground (arith, h, e, f) in
          inl (sym (ap (λ (x : Db). x.runs) same))
      | inr (revision, f) ↦
          elim (Result-cases (store_check now ws sales revision observe_sales db)) [
            | inl (x, q) ↦ absurd (unfold check_one in ground (arith, h, e, f, q))
            | inr (a, q) ↦ inl (
                stored_runs sales revision observe_sales db db'
                  (q ∙ ap (λ x. ok x) (unfold check_one in ground (arith, h, e, f, q))))
          ]
    ]
  ]

  pub check_one-IsSound :
      (b : Bool) (db' : Db)
      → check_one ops r show show_id new_id collate observe_sales now run_id ws review db
        ≡ ok (b, db')
      → IsFresh run_id db
      → IsSound db
      → IsSound db'
  check_one-IsSound b db' h fresh s = elim (check_one_runs b db' h) [
    | inl e ↦ same-IsSound db db' e s
    | inr (revision, mid, e, q) ↦
        let free : IsFresh run_id mid = rw e fresh in
        subst IsSound (sym q)
          (review-IsSound show now run_id ws revision mid free (same-IsSound db mid e s))
  ]

paused_agents :
    (now : ℕ) (ws : String) (role : Role) (db db' : Db)
    → control now ws role pause db ≡ ok (tt, db')
    → db'.agents ≡ update_rows (is_agent ws role) (set_enabled false) db.agents
unfolding control switch shift_jobs
paused_agents now ws role db db' h =
    elim (Bool-cases (count_rows (is_agent ws role) db.agents == 0)) [
      | inl e ↦ absurd (ground (arith, h, e))
      | inr e ↦ elim (Bool-cases (is_procurement_role role)) [
        | inl t ↦ ground (arith, h, e, t)
        | inr t ↦ ground (arith, h, e, t)
      ]
    ]

-- Once an agent is paused it is not due, so no round of the monitor checks it.
pub control-due :
    (now : ℕ) (ws : String) (role : Role) (db db' : Db)
    → control now ws role pause db ≡ ok (tt, db')
    → due ws role db' ≡ none
unfolding due
control-due now ws role db db' h =
    let agents = paused_agents now ws role db db' h in
    elim (Option-cases (find_row (is_agent ws role) db.agents)) [
      | inl e ↦
          let found =
            find_row-update_rows-none (is_agent ws role) (is_agent ws role) (set_enabled false)
              db.agents (λ b. refl) e in
          ground (arith, agents, found)
      | inr (a, e) ↦
          let here = find_row_sound (is_agent ws role) db.agents e in
          let found : find_row (is_agent ws role) db'.agents ≡ some (set_enabled false a) =
            ap (find_row (is_agent ws role)) agents
            ∙ find_row-update_rows (is_agent ws role) (is_agent ws role) (set_enabled false)
                db.agents (λ b. refl) e
            ∙ ground (arith, here) in
          elim (Option-cases (find_row (is_revision ws role) db'.revisions)) [
            | inl f ↦ ground (arith, found, f)
            | inr (_, f) ↦ ground (arith, found, f)
          ]
    ]
