-- ===== src/ScopedAgents/Rounds.antt =====
-- A round of the monitor: it succeeds, and takes one of the revisions that wait.
use backhaus_ai_backend.Base.{
  ℕ, suc, ◌≡◌, refl, ◌∙◌, ◌⊎◌, inl, inr, Bool, true, false, none, some, List, String, if◌then◌else◌,
  arith, any_row, Bool-cases, Option-cases,
}
use backhaus_ai_backend.Base.Json.{Json}
use backhaus_ai_backend.Base.Result.{Result, ok}
use backhaus_ai_backend.Decimal.{Arithmetic, Rounding}
use backhaus_ai_backend.Store.{Db, Kind, Role, sales, inventory}
use backhaus_ai_backend.Store.Stock.{Item}
use backhaus_ai_backend.Jobs.{insert_run, enqueue_system, has_key}
use backhaus_ai_backend.Purchasing.Check.{prepare_drafts}
use backhaus_ai_backend.Purchasing.Check.Frame.{prepare_drafts-Frame}
use backhaus_ai_backend.Purchasing.Findings.{findings_json}
use backhaus_ai_backend.ScopedAgents.Checks.{
  due, with_check, supersede, queue_review, check_inventory, check_one,
}
use backhaus_ai_backend.ScopedAgents.Once.{
  IsLedger, pending, due-IsDue, due_unchecked, with_check-IsStored, store_check_ok, not_due,
  other_due, stored-IsLedger,
}

-- The tables that say what is due are the same.
pub record SameWork (a b : Db) : Type 0 where
  pub agents : b.agents ≡ a.agents
  pub revisions : b.revisions ≡ a.revisions
  pub checks : b.checks ≡ a.checks

due-same : (ws : String) (role : Role) (a b : Db) → SameWork a b → due ws role b ≡ due ws role a
unfolding due
due-same ws role a b s = rw (s.agents, s.revisions) refl

IsLedger-same : (a b : Db) → SameWork a b → IsLedger a → IsLedger b
IsLedger-same a b s l = rw (s.agents, s.checks) l

enqueue-same :
    (now id : ℕ) (ws : String) (kind : Kind) (key : String) (input : Json) (db : Db)
    → SameWork db (enqueue_system now id ws kind key input db).1
unfolding enqueue_system insert_run
enqueue-same now id ws kind key input db = elim (Bool-cases (any_row (has_key ws key) db.runs)) [
  | inl e ↦ rw e (record { agents = refl; revisions = refl; checks = refl })
  | inr e ↦ rw e (record { agents = refl; revisions = refl; checks = refl })
]

review-same :
    (show : ℕ → String) (now id : ℕ) (ws : String) (revision : ℕ) (db : Db)
    → SameWork db (queue_review show now id ws revision db)
unfolding queue_review supersede
review-same show now id ws revision db =
    let x = enqueue-same now id ws _ _ _ (supersede now ws db) in
    record { agents = x.agents; revisions = x.revisions; checks = x.checks }

module _ (ops : Arithmetic) (r : Rounding) (show show_id : ℕ → String) (new_id : ℕ → ℕ)
    (collate : List Item → List Item) (observe_sales : Json) (now run_id : ℕ) (ws : String)
    (review : Bool) (db : Db) where
  abbrev checked : Result (Bool × Db)
  checked = check_one ops r show show_id new_id collate observe_sales now run_id ws review db

  -- A round that found a revision to look at.
  pub record Took : Type 0 where
    pub after : Db
    pub answer : checked ≡ ok (true, after)
    pub fewer : pending ws db ≡ suc (pending ws after)
    pub ledger : IsLedger after

  if-same :
      (revision : ℕ) (stored : Db)
      → SameWork stored (if review then queue_review show now run_id ws revision stored else stored)
  if-same revision stored = elim (Bool-cases review) [
    | inl e ↦ rw e (review-same show now run_id ws revision stored)
    | inr e ↦ rw e (record { agents = refl; revisions = refl; checks = refl })
  ]

  inventory_checked :
      (revision : ℕ)
      → IsLedger db
      → due ws inventory db ≡ some revision
      → (db' : Db) × (check_inventory ops r show show_id new_id collate observe_sales now run_id ws
            review revision db
          ≡ ok db')
        × (due ws inventory db' ≡ none)
        × (due ws sales db' ≡ due ws sales db)
        × IsLedger db'
  unfolding check_inventory
  inventory_checked revision l h =
      let x = prepare_drafts ops r show show_id new_id now ws collate revision db in
      let f = prepare_drafts-Frame ops r show show_id new_id now ws collate revision db in
      let same : SameWork db x.1 = record {
        agents = f.agents;
        revisions = f.revisions;
        checks = f.checks;
      } in
      let d = due-IsDue ws inventory revision x.1 (due-same ws inventory db x.1 same ∙ h) in
      let j = findings_json ops show show_id x.0 in
      let stored = with_check now ws inventory revision j x.1 in
      let s = with_check-IsStored now ws inventory revision j x.1 in
      let l' = IsLedger-same db x.1 same l in
      let answer =
        store_check_ok now ws inventory revision j x.1
          (due_unchecked ws inventory revision x.1 l' d) in
      let none_due = not_due now ws inventory revision j x.1 stored s d in
      let others = other_due now ws inventory revision j x.1 stored s d sales refl in
      let kept = stored-IsLedger now ws inventory revision j x.1 stored s d l' in
      let final = if review then queue_review show now run_id ws revision stored else stored in
      let o = if-same revision stored in
      (
        final,
        rw (check_inventory, answer) refl,
        due-same ws inventory stored final o ∙ none_due,
        due-same ws sales stored final o ∙ others ∙ due-same ws sales db x.1 same,
        IsLedger-same stored final o kept,
      )

  -- When no stored check is of a later revision than its agent's last one, a round of the monitor
  -- succeeds. Either no role has a revision to look at and nothing changes, or one such revision
  -- fewer is left.
  pub check_one-cases : IsLedger db → ((pending ws db ≡ 0) × (checked ≡ ok (false, db))) ⊎ Took
  unfolding check_one
  check_one-cases l = elim (Option-cases (due ws inventory db)) [
    | inr (revision, e) ↦
        let (after, answer, gone, others, ledger) = inventory_checked revision l e in
        inr (record {
          after = after;
          answer = rw (check_one, e, answer) refl;
          fewer = rw (e, gone, others) (omega arith);
          ledger = ledger;
        })
    | inl e ↦ elim (Option-cases (due ws sales db)) [
      | inl f ↦ inl (rw (e, f) refl, rw (check_one, e, f) refl)
      | inr (revision, f) ↦
          let d = due-IsDue ws sales revision db f in
          let s = with_check-IsStored now ws sales revision observe_sales db in
          let after = with_check now ws sales revision observe_sales db in
          inr (record {
            after = after;
            answer =
                rw
                  (
                    check_one,
                    e,
                    f,
                    store_check_ok now ws sales revision observe_sales db
                        (due_unchecked ws sales revision db l d),
                  )
                  refl;
            fewer =
                rw
                  (
                    e,
                    f,
                    not_due now ws sales revision observe_sales db after s d,
                    other_due now ws sales revision observe_sales db after s d inventory refl ∙ e,
                  )
                  refl;
            ledger = stored-IsLedger now ws sales revision observe_sales db after s d l;
          })
    ]
  ]

module _ (ops : Arithmetic) (r : Rounding) (show show_id : ℕ → String) (new_id : ℕ → ℕ → ℕ)
    (collate : List Item → List Item) (observe_sales : Json) (now : ℕ) (run_id : ℕ → ℕ)
    (ws : String) (review : Bool) where
  -- What enough rounds leave.
  pub record IsIdle (x : Result Db) : Type 0 where
    pub after : Db
    pub answer : x ≡ ok after
    pub idle : pending ws after ≡ 0
    pub ledger : IsLedger after
