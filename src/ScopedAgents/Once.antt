-- ===== src/ScopedAgents/Once.antt =====
-- A check looks at each revision of the data once, and never stores two checks of one revision.
use package.text.Mathlib.TextEquality.{eq_iff}
use backhaus_ai_backend.Base.{
  ltb, ℕ, ◌+◌, ◌≡◌, refl, sym, ap, subst, ◌∙◌, inl, inr, Bool, true, false, not, ◌&&◌, Option, none,
  some, ◌∷◌, String, if◌then◌else◌, arith, All, Memᴰ, any_row, find_row, update_rows, Bool-cases,
  Option-cases, All-of_mem, All-mem, find_row_sound, find_row-mem, find_row-update_rows,
  find_row-update_rows-none, All-changed, All_of_none,
}
use backhaus_ai_backend.Base.Int.{pos, ltb_ℤ}
use backhaus_ai_backend.Base.Json.{Json}
use backhaus_ai_backend.Base.Result.{ok}
use backhaus_ai_backend.Store.{
  Db, ScopedAgent, DataRevision, CheckRow, Role, sales, inventory, procurement,
}
use backhaus_ai_backend.ScopedAgents.{same_role, is_agent}
use backhaus_ai_backend.ScopedAgents.Checks.{
  is_revision, due, is_check, checked_agent, with_check, store_check,
}

-- No stored check is of a later revision than its agent's last one.
abbrev is_covered : CheckRow → ScopedAgent → Bool
is_covered c a =
    if is_agent c.workspace c.role a then not (ltb_ℤ a.checked_revision (pos c.revision)) else true

abbrev pub IsLedger : Db → Type 0
IsLedger db = All (λ c. All (λ a. is_covered c a ≡ true) db.agents) db.checks

-- How many of the two roles have a revision to look at.

abbrev counted : Option ℕ → ℕ
counted none = 0
counted (some _) = 1

abbrev pub pending : String → Db → ℕ
pending ws db = counted (due ws inventory db) + counted (due ws sales db)

-- What makes a role due.
pub record IsDue (ws : String) (role : Role) (revision : ℕ) (db : Db) : Type 0 where
  pub agent : ScopedAgent
  pub row : DataRevision
  pub found : find_row (is_agent ws role) db.agents ≡ some agent
  pub current : find_row (is_revision ws role) db.revisions ≡ some row
  pub ahead : ltb_ℤ agent.checked_revision (pos revision) ≡ true
  pub same : row.revision ≡ revision

pub due-IsDue :
    (ws : String) (role : Role) (revision : ℕ) (db : Db)
    → due ws role db ≡ some revision
    → IsDue ws role revision db
unfolding due
due-IsDue ws role revision db h = elim (Option-cases (find_row (is_agent ws role) db.agents)) [
  | inl e ↦ absurd (ground (arith, h, e))
  | inr (a, e) ↦ elim (Option-cases (find_row (is_revision ws role) db.revisions)) [
    | inl f ↦ absurd (ground (arith, h, e, f))
    | inr (row, f) ↦ elim (Bool-cases (a.enabled && ltb_ℤ a.checked_revision (pos row.revision))) [
      | inl t ↦
          let same : row.revision ≡ revision = ground (arith, h, e, f, t) in
          record {
            agent = a;
            row = row;
            found = e;
            current = f;
            ahead = subst (λ x. ltb_ℤ a.checked_revision (pos x) ≡ true) same (ground (arith, t));
            same = same;
          }
      | inr t ↦ absurd (ground (arith, h, e, f, t))
    ]
  ]
]

same_role_eq : (a b : Role) → same_role a b ≡ true → a ≡ b
same_role_eq sales sales h = refl
same_role_eq inventory inventory h = refl
same_role_eq procurement procurement h = refl
same_role_eq sales inventory h = cc
same_role_eq sales procurement h = cc
same_role_eq inventory sales h = cc
same_role_eq inventory procurement h = cc
same_role_eq procurement sales h = cc
same_role_eq procurement inventory h = cc

-- A check of the workspace and role covers the due agent's last revision, which is behind.
behind :
    (ws : String) (role : Role) (revision : ℕ) (db : Db) (c : CheckRow)
    → IsLedger db
    → Memᴰ c db.checks
    → IsDue ws role revision db
    → c.workspace ≡ ws
    → c.role ≡ role
    → ltb c.revision revision ≡ true
behind ws role revision db c l m d p q =
    let here : is_agent ws role d.agent ≡ true =
      find_row_sound (is_agent ws role) db.agents d.found in
    let there : is_agent c.workspace c.role d.agent ≡ true =
      ap (λ x. is_agent x c.role d.agent) p ∙ ap (λ x. is_agent ws x d.agent) q ∙ here in
    let covered : is_covered c d.agent ≡ true =
      All-mem _ db.agents (All-mem _ db.checks l m) (find_row-mem _ db.agents d.found) in
    ground (arith, covered, there, d.ahead)

-- A due revision has no stored check.
pub due_unchecked :
    (ws : String) (role : Role) (revision : ℕ) (db : Db)
    → IsLedger db
    → IsDue ws role revision db
    → any_row (is_check ws role revision) db.checks ≡ false
due_unchecked ws role revision db l d = All_of_none _ db.checks (
    All-of_mem db.checks (λ c m. elim (Bool-cases (is_check ws role revision c)) [
      | inr e ↦ e
      | inl e ↦
          let p : c.workspace ≡ ws = (eq_iff c.workspace ws).0 (ground (arith, e)) in
          let q : c.role ≡ role = same_role_eq c.role role (ground (arith, e)) in
          absurd (ground (arith, e, behind ws role revision db c l m d p q))
    ]))

-- What a stored check writes.
pub record IsStored (now : ℕ) (ws : String) (role : Role) (revision : ℕ) (j : Json) (db db' : Db)
    : Type 0 where
  pub agents : db'.agents ≡ update_rows (is_agent ws role) (checked_agent now revision j) db.agents
  pub revisions : db'.revisions ≡ db.revisions
  pub checks :
      db'.checks
      ≡ record { workspace = ws; role = role; revision = revision; observation = j } ∷ db.checks
  pub runs : db'.runs ≡ db.runs

pub with_check-IsStored :
    (now : ℕ) (ws : String) (role : Role) (revision : ℕ) (j : Json) (db : Db)
    → IsStored now ws role revision j db (with_check now ws role revision j db)
unfolding with_check
with_check-IsStored now ws role revision j db = record {
  agents = refl;
  revisions = refl;
  checks = refl;
  runs = refl;
}

pub store_check_ok :
    (now : ℕ) (ws : String) (role : Role) (revision : ℕ) (j : Json) (db : Db)
    → any_row (is_check ws role revision) db.checks ≡ false
    → store_check now ws role revision j db ≡ ok (with_check now ws role revision j db)
unfolding store_check
store_check_ok now ws role revision j db h = ground (arith, h)

-- After a check its role is not due, and the other roles are as they were.
module _ (now : ℕ) (ws : String) (role : Role) (revision : ℕ) (j : Json) (db db' : Db)
    (s : IsStored now ws role revision j db db') (d : IsDue ws role revision db) where
  pub not_due : due ws role db' ≡ none
  unfolding due
  not_due =
      let here : is_agent ws role d.agent ≡ true =
        find_row_sound (is_agent ws role) db.agents d.found in
      let found : find_row (is_agent ws role) db'.agents
          ≡ some (checked_agent now revision j d.agent) =
        ap (find_row (is_agent ws role)) s.agents
        ∙ find_row-update_rows (is_agent ws role) (is_agent ws role) (checked_agent now revision j)
            db.agents (λ b. unfold checked_agent in refl) d.found
        ∙ ground (arith, here) in
      let current : find_row (is_revision ws role) db'.revisions ≡ some d.row =
        ap (find_row (is_revision ws role)) s.revisions ∙ d.current in
      unfold checked_agent in ground (arith, found, current, d.same)

  not_other :
      (other : Role)
      → same_role role other ≡ false
      → (a : ScopedAgent) → is_agent ws other a ≡ true
      → is_agent ws role a ≡ false
  not_other other ne a here = elim (Bool-cases (is_agent ws role a)) [
    | inr e ↦ e
    | inl e ↦
        let p : a.role ≡ role = same_role_eq a.role role (ground (arith, e)) in
        absurd (ground (arith, ne, ap (λ x. same_role x other) p, here))
  ]

  pub other_due : (other : Role) → same_role role other ≡ false → due ws other db' ≡ due ws other db
  unfolding due
  other_due other ne = elim (Option-cases (find_row (is_agent ws other) db.agents)) [
    | inl e ↦
        let found : find_row (is_agent ws other) db'.agents ≡ none =
          ap (find_row (is_agent ws other)) s.agents
          ∙ find_row-update_rows-none (is_agent ws other) (is_agent ws role)
              (checked_agent now revision j) db.agents (λ b. unfold checked_agent in refl) e in
        ground (arith, found, e)
    | inr (a, e) ↦
        let here : is_agent ws other a ≡ true = find_row_sound (is_agent ws other) db.agents e in
        let found : find_row (is_agent ws other) db'.agents ≡ some a =
          ap (find_row (is_agent ws other)) s.agents
          ∙ find_row-update_rows (is_agent ws other) (is_agent ws role)
              (checked_agent now revision j) db.agents (λ b. unfold checked_agent in refl) e
          ∙ ground (arith, not_other other ne a here) in
        ground (arith, found, e, ap (find_row (is_revision ws other)) s.revisions)
  ]

  pub stored-IsLedger : IsLedger db → IsLedger db'
  stored-IsLedger l =
      subst (λ x. All (λ c. All (λ a. is_covered c a ≡ true) db'.agents) x) (sym s.checks)
        (
          subst (λ x. All (λ a. is_covered new_check a ≡ true) x) (sym s.agents)
              (All-changed (λ _. Unit {0}) _ (is_agent ws role) (checked_agent now revision j)
                db.agents (λ a _ _. new_covered a) (All-of_mem db.agents (λ _ _. tt))),
          All-of_mem db.checks (λ c m.
              subst (λ x. All (λ a. is_covered c a ≡ true) x) (sym s.agents)
                (All-changed (λ a. is_covered c a ≡ true) _ (is_agent ws role)
                  (checked_agent now revision j) db.agents (λ a _ h. old_covered c m a h)
                  (All-mem _ db.checks l m))),
        )
    where
      new_check : CheckRow
      new_check = record { workspace = ws; role = role; revision = revision; observation = j }

      new_covered :
          (a : ScopedAgent)
          → is_covered new_check (if is_agent ws role a then checked_agent now revision j a else a)
            ≡ true
      new_covered a = elim (Bool-cases (is_agent ws role a)) [
        | inl e ↦ unfold checked_agent in ground (arith, e)
        | inr e ↦ ground (arith, e)
      ]

      old_covered :
          (c : CheckRow)
          → Memᴰ c db.checks
          → (a : ScopedAgent) → is_covered c a ≡ true
          → is_covered c (if is_agent ws role a then checked_agent now revision j a else a) ≡ true
      old_covered c m a h = elim (Bool-cases (is_agent ws role a)) [
        | inr e ↦ ground (arith, e, h)
        | inl e ↦ elim (Bool-cases (is_agent c.workspace c.role a)) [
          | inr t ↦ unfold checked_agent in ground (arith, e, t)
          | inl t ↦
              let p : c.workspace ≡ ws =
                sym ((eq_iff a.workspace c.workspace).0 (ground (arith, t)))
                ∙ (eq_iff a.workspace ws).0 (ground (arith, e)) in
              let q : c.role ≡ role =
                sym (same_role_eq a.role c.role (ground (arith, t)))
                ∙ same_role_eq a.role role (ground (arith, e)) in
              unfold checked_agent in ground (arith, e, t, behind ws role revision db c l m d p q)
        ]
      ]
