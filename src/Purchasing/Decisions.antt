-- ===== src/Purchasing/Decisions.antt =====
-- What an operator's decision does to an order.
use text.Mathlib.TextEquality.{eq_iff}
use backhaus_ai_backend.Base.{
  ℕ, ◌≡◌, refl, sym, subst, ◌∙◌, ◌≢◌, ◌⊎◌, inl, inr, true, false, ◌&&◌, Option, none, some, [], ◌∷◌,
  List, ◌+◌, ◌++◌, String, arith, find_row, update_rows, Option-cases, find_row-update_rows,
  find_row_sound, Memᴰ, mem-update_rows,
}
use backhaus_ai_backend.Base.Result.{ok, err, conflict}
use backhaus_ai_backend.Decimal.{Arithmetic}
use backhaus_ai_backend.Store.{Db}
use backhaus_ai_backend.Store.Orders.{
  Vendor, Order, OrderEvent, OrderStatus, draft, approved, rejected, withdrawn, is_draft, manual,
  ApprovalKind,
}
use backhaus_ai_backend.Purchasing.{
  policy, exceeds, Action, approve, reject, other, Decision, decide_versioned, is_order,
  decided_row, is_vendor, snapshot, contact, kept_note, decision_event,
}

-- An order that is no longer a draft is never changed by a decision: the call returns it as it is,
-- or fails.
pub decided_unchanged :
    (ops : Arithmetic) (now : ℕ) (ws : String) (id : ℕ) (action : Action) (actor : String)
    (remark : Option String) (expected : Option ℕ) (o : Order) (d : Decision) (db db' : Db)
    → find_row (is_order ws id) db.orders ≡ some o
    → is_draft o.status ≡ false
    → decide_versioned ops now ws id action actor remark expected db ≡ ok (d, db')
    → (db' ≡ db) × (d.changed ≡ false) × (d.order ≡ o)
unfolding decide_versioned
decided_unchanged ops now ws id action actor remark expected o d db db' found decided h =
    ground arith

-- A draft whose version is not the one that the operator saw is not decided.
pub stale_refused :
    (ops : Arithmetic) (now : ℕ) (ws : String) (id : ℕ) (action : Action) (actor : String)
    (remark : Option String) (seen : ℕ) (o : Order) (db : Db)
    → find_row (is_order ws id) db.orders ≡ some o
    → o.status ≡ draft
    → seen ≢ o.version
    → decide_versioned ops now ws id action actor remark (some seen) db ≡ err conflict
unfolding decide_versioned
stale_refused ops now ws id action actor remark seen o db found is ne = ground arith

-- What an operator's action makes of a draft.
abbrev pub decision_of : Action → OrderStatus × Option ApprovalKind
decision_of approve = (approved, some manual)
decision_of _ = (rejected, none)

-- The columns that a decision writes, and those it leaves.
pub record IsMarked (now : ℕ) (action : Action) (actor : String) (remark : Option String)
    (o d : Order) : Type 0 where
  pub status : d.status ≡ (decision_of action).0
  pub by : d.decided_by ≡ some actor
  pub at : d.decided_at ≡ some now
  pub note : d.decision_note ≡ kept_note remark
  pub version : d.version ≡ o.version + 1
  pub same : (d.id ≡ o.id) × (d.vendor_id ≡ o.vendor_id) × (d.subtotal ≡ o.subtotal)

decided_row-IsMarked :
    (now : ℕ) (action : Action) (actor : String) (remark : Option String) (vs : List Vendor)
    (o : Order)
    → IsMarked now action actor remark o (
        decided_row now (decision_of action).0 (decision_of action).1 actor (kept_note remark) vs o)
unfolding decided_row
decided_row-IsMarked now action actor remark vs o = record {
  status = refl;
  by = refl;
  at = refl;
  note = refl;
  version = refl;
  same = (refl, refl, refl);
}

-- What deciding a draft has done.
pub record IsDecided (ops : Arithmetic) (now : ℕ) (ws : String) (id : ℕ) (action : Action)
    (actor : String) (remark : Option String) (o : Order) (d : Decision) (db db' : Db)
    : Type 0 where
  pub changed : d.changed ≡ true
  pub marked : IsMarked now action actor remark o d.order
  pub written :
      d.order
      ≡ decided_row now
          (decision_of action).0
          (decision_of action).1
          actor
          (kept_note remark)
          db.vendors
          o
  pub stored : find_row (is_order ws id) db'.orders ≡ some d.order
  pub supplier :
      (v : Vendor) × (find_row (is_vendor ws o.vendor_id) db.vendors ≡ some v)
      × (d.order.vendor_snapshot ≡ some (contact v))
  pub limited : action ≡ approve → exceeds ops (policy ws db).approval_limit o.subtotal ≡ false
  pub logged :
      (e : OrderEvent) × (db'.order_events ≡ db.order_events ++ e ∷ [])
      × (e.order_id ≡ id)
      × (e.actor ≡ actor)
  pub vendors_kept : db'.vendors ≡ db.vendors
  pub rows :
      db'.orders
      ≡ update_rows
          (λ x. is_order ws o.id x && is_draft x.status)
          (decided_row now
            (decision_of action).0
            (decision_of action).1
            actor
            (kept_note remark)
            db.vendors)
          db.orders

module _ (ops : Arithmetic) (now : ℕ) (ws : String) (id : ℕ) (actor : String)
    (remark : Option String) (o : Order) (db : Db)
    (found : find_row (is_order ws id) db.orders ≡ some o) where
  row_is : is_order ws id o ≡ true
  row_is = find_row_sound (is_order ws id) db.orders found

  -- The row that the update leaves behind.
  stored_row :
      (s : OrderStatus) (k : Option ApprovalKind)
      → o.status ≡ draft
      → find_row (is_order ws id) (
          update_rows
            (λ x. is_order ws o.id x && is_draft x.status)
            (decided_row now s k actor (kept_note remark) db.vendors)
            db.orders)
        ≡ some (decided_row now s k actor (kept_note remark) db.vendors o)
  stored_row s k is =
      find_row-update_rows (is_order ws id) (λ x. is_order ws o.id x && is_draft x.status)
        (decided_row now s k actor (kept_note remark) db.vendors) db.orders
        (λ b. unfold decided_row in refl) found
      ∙ ground (arith, row_is)

  same_workspace : o.workspace ≡ ws
  same_workspace = (eq_iff o.workspace ws).0 (ground (arith, row_is))

  -- A decision on a draft that succeeds approves or rejects it as asked: the order that it answers
  -- with is the one that is stored, carries the actor, the trimmed note, the next version and the
  -- vendor's contact details of this moment, one event is recorded, and an approved order is within
  -- the approval limit.
  pub decide_draft :
      (action : Action) (expected : Option ℕ) (d : Decision) (db' : Db)
      → o.status ≡ draft
      → decide_versioned ops now ws id action actor remark expected db ≡ ok (d, db')
      → IsDecided ops now ws id action actor remark o d db db'
  unfolding decide_versioned
  decide_draft approve expected d db' is h =
      elim (Option-cases (find_row (is_vendor ws o.vendor_id) db.vendors)) [
        | inl e ↦ absurd (ground (arith, stored_row approved (some manual) is, e))
        | inr (v, e) ↦ record {
          changed = ground (arith, stored_row approved (some manual) is, e);
          marked =
              subst (IsMarked now approve actor remark o)
                (sym (ground (arith, stored_row approved (some manual) is, e)))
                (decided_row-IsMarked now approve actor remark db.vendors o);
          written = ground (arith, stored_row approved (some manual) is, e);
          stored = ground (arith, stored_row approved (some manual) is, e);
          supplier = (
            v,
            e,
            unfold decided_row snapshot in
                ground (arith, stored_row approved (some manual) is, e, same_workspace),
          );
          limited = λ _. ground (arith, stored_row approved (some manual) is, e);
          logged = (
            decision_event ops ws o "approved" actor (some manual) (kept_note remark),
            ground (arith, stored_row approved (some manual) is, e),
            ground (arith, row_is),
            refl,
          );
          vendors_kept = ground (arith, stored_row approved (some manual) is, e);
          rows = ground (arith, stored_row approved (some manual) is, e);
        }
      ]
  decide_draft reject expected d db' is h =
      elim (Option-cases (find_row (is_vendor ws o.vendor_id) db.vendors)) [
        | inl e ↦ absurd (ground (arith, stored_row rejected none is, e))
        | inr (v, e) ↦ record {
          changed = ground (arith, stored_row rejected none is, e);
          marked =
              subst (IsMarked now reject actor remark o)
                (sym (ground (arith, stored_row rejected none is, e)))
                (decided_row-IsMarked now reject actor remark db.vendors o);
          written = ground (arith, stored_row rejected none is, e);
          stored = ground (arith, stored_row rejected none is, e);
          supplier = (
            v,
            e,
            unfold decided_row snapshot in
                ground (arith, stored_row rejected none is, e, same_workspace),
          );
          limited = λ a. absurd (ground arith);
          logged = (
            decision_event ops ws o "rejected" actor none (kept_note remark),
            ground (arith, stored_row rejected none is, e),
            ground (arith, row_is),
            refl,
          );
          vendors_kept = ground (arith, stored_row rejected none is, e);
          rows = ground (arith, stored_row rejected none is, e);
        }
      ]
  decide_draft other expected d db' is h = absurd (ground arith)

  -- A decision on a draft may be sent again, by anybody, with any note and any version: the same
  -- action on the order that it made then changes nothing and answers with the same order.
  pub decide_repeat :
      (action : Action) (expected : Option ℕ) (d : Decision) (db' : Db) (ops' : Arithmetic)
      (later : ℕ) (actor' : String) (remark' : Option String) (expected' : Option ℕ)
      → o.status ≡ draft
      → decide_versioned ops now ws id action actor remark expected db ≡ ok (d, db')
      → decide_versioned ops' later ws id action actor' remark' expected' db'
        ≡ ok (record { order = d.order; changed = false }, db')
  decide_repeat approve expected d db' ops' later actor' remark' expected' is h =
      let x = decide_draft approve expected d db' is h in
      unfold decide_versioned decided_row in
      ground (arith, x.stored, x.written, x.supplier, x.vendors_kept)
  decide_repeat reject expected d db' ops' later actor' remark' expected' is h =
      let x = decide_draft reject expected d db' is h in
      unfold decide_versioned decided_row in
      ground (arith, x.stored, x.written, x.supplier, x.vendors_kept)
  decide_repeat other expected d db' ops' later actor' remark' expected' is h =
      absurd (unfold decide_versioned in ground arith)

pub draft-cases : (s : OrderStatus) → (s ≡ draft) ⊎ (is_draft s ≡ false)
draft-cases draft = inl refl
draft-cases approved = inr refl
draft-cases rejected = inr refl
draft-cases withdrawn = inr refl

-- A decision leaves every other order as it is.
pub decide_keeps_others :
    (ops : Arithmetic) (now : ℕ) (ws : String) (id : ℕ) (action : Action) (actor : String)
    (remark : Option String) (expected : Option ℕ) (o x : Order) (d : Decision) (db db' : Db)
    → find_row (is_order ws id) db.orders ≡ some o
    → decide_versioned ops now ws id action actor remark expected db ≡ ok (d, db')
    → is_order ws id x ≡ false
    → Memᴰ x db.orders
    → Memᴰ x db'.orders
decide_keeps_others ops now ws id action actor remark expected o x d db db' found h ne m =
    elim (draft-cases o.status) [
      | inl is ↦
          subst (λ rs. Memᴰ x rs)
            (sym
              (decide_draft ops now ws id actor remark o db found action expected d db' is h).rows)
            (mem-update_rows (λ y. is_order ws o.id y && is_draft y.status) _ db.orders
              (ground (arith, row_is)) m)
      | inr closed ↦
          subst (λ b. Memᴰ x b.orders)
            (sym
              (decided_unchanged ops now ws id action actor remark expected o d db db' found closed
                h).0)
            m
    ]
  where
    row_is : is_order ws id o ≡ true
    row_is = find_row_sound (is_order ws id) db.orders found
