-- ===== src/Inventory/Requests.antt =====
-- Idempotency of a stock movement: what the second use of a key does.
use backhaus_ai_backend.Base.{
  ℕ, ◌≡◌, ◌≢◌, refl, sym, ◌∙◌, subst, inl, inr, Bool, true, false, some, List, String, find_row,
  update_rows, arith, Option-cases, find_row-update_rows, find_row-append, ◌||◌, ltb,
}
use backhaus_ai_backend.Base.Json.{Json}
use backhaus_ai_backend.Base.Text.{str_eq_refl, str_ne, is_empty}
use Prim.Native.String.{len as bytes}
use text.Mathlib.TextEquality.{eq_iff}
use backhaus_ai_backend.Base.Result.{ok, err, conflict}
use backhaus_ai_backend.Decimal.{Decimal, Arithmetic}
use backhaus_ai_backend.Store.{Db}
use backhaus_ai_backend.Store.Stock.{Item, MovementKey}
use backhaus_ai_backend.Inventory.{
  MovementRequest, Recorded, record_movement, request_body, is_item, is_key, balanced, validate,
  delta_of, key_row, response_of,
}

key_is :
    (ws key : String) (k : MovementKey)
    → k.workspace ≡ ws
    → k.request_key ≡ key
    → is_key ws key k ≡ true
key_is ws key k e f = ground (arith, str_eq_refl ws, str_eq_refl key, e, f)

still_item :
    (ws item : String) (q : Item → Bool) (b : Decimal) (xs : List Item) {i : Item}
    → find_row (is_item ws item) xs ≡ some i
    → (j : Item) × (find_row (is_item ws item) (update_rows q (balanced b) xs) ≡ some j)
still_item ws item q b xs h =
    (_, find_row-update_rows (is_item ws item) q (balanced b) xs (λ _. refl) h)

module _ (ops : Arithmetic) (hash : Json → String) where
  -- What a movement that succeeds leaves behind.
  pub record IsRecorded (ws item key : String) (r : MovementRequest) (rec : Recorded) (db' : Db)
      : Type 0 where
    pub key_valid : (is_empty key || ltb 128 (bytes key)) ≡ false
    pub valid : validate ops r ≡ ok tt
    pub item_row : (i : Item) × (find_row (is_item ws item) db'.items ≡ some i)
    pub stored :
        (k : MovementKey) × (find_row (is_key ws key) db'.movement_requests ≡ some k)
        × (k.request_hash ≡ hash (request_body ops item r))
        × (k.response ≡ rec.response)

  pub record-IsRecorded :
      (now id : ℕ) (ws item key : String) (r : MovementRequest) (rec : Recorded) (db db' : Db)
      → record_movement ops hash now id ws item key r db ≡ ok (rec, db')
      → IsRecorded ws item key r rec db'
  unfolding record_movement
  record-IsRecorded now id ws item key r rec db db' h =
      elim (Option-cases (find_row (is_item ws item) db.items)) [
        | inl e ↦ absurd (ground (arith, e))
        | inr (i, e) ↦ elim (Option-cases (find_row (is_key ws key) db.movement_requests)) [
          | inl f ↦ record {
            key_valid = ground (arith, e, f);
            valid = ground (arith, e, f);
            item_row =
                subst (λ xs. (j : Item) × (find_row (is_item ws item) xs ≡ some j))
                  (sym (ground (arith, e, f)))
                  (still_item ws item (is_item ws i.id)
                    (ops.add i.current_balance (delta_of ops r i.current_balance)) db.items e);
            stored = (
              key_row id ws key (hash (request_body ops item r)) (response_of ops now id r i),
              subst
                  (λ xs.
                    find_row (is_key ws key) xs
                    ≡ some (
                        key_row id ws key (hash (request_body ops item r))
                          (response_of ops now id r i)))
                  (sym (ground (arith, e, f)))
                  (find_row-append (is_key ws key) db.movement_requests
                    (key_row id ws key (hash (request_body ops item r))
                      (response_of ops now id r i))
                    f
                    (key_is ws key
                      (key_row id ws key (hash (request_body ops item r))
                        (response_of ops now id r i))
                      refl refl)),
              refl,
              ground (arith, e, f),
            );
          }
          | inr (k, f) ↦ record {
            key_valid = ground (arith, e, f);
            valid = ground (arith, e, f);
            item_row = (i, ground (arith, e, f));
            stored = (
              k,
              ground (arith, e, f),
              (eq_iff k.request_hash _).0 (ground (arith, e, f)),
              ground (arith, e, f),
            );
          }
        ]
      ]

  -- A movement that succeeded may be sent again under its key at any time: nothing more is written,
  -- and the answer is the first one's, marked as reused.
  pub record_again :
      (now id now' id' : ℕ) (ws item key : String) (r : MovementRequest) (rec : Recorded)
      (db db' : Db)
      → record_movement ops hash now id ws item key r db ≡ ok (rec, db')
      → record_movement ops hash now' id' ws item key r db'
        ≡ ok (record { response = rec.response; reused = true }, db')
  record_again now id now' id' ws item key r rec db db' h =
      let x = record-IsRecorded now id ws item key r rec db db' h in
      unfold record_movement in
      ground (
        arith,
        x.key_valid,
        x.valid,
        x.item_row,
        x.stored,
        (eq_iff x.stored.0.request_hash _).1 x.stored.2,
      )

  -- The key of a movement that succeeded is refused for any other adjustment of an item of the
  -- workspace whose hash is another: the call is a conflict.
  pub record_conflict :
      (now id now' id' : ℕ) (ws item other key : String) (r q : MovementRequest) (rec : Recorded)
      (i : Item) (db db' : Db)
      → record_movement ops hash now id ws item key r db ≡ ok (rec, db')
      → validate ops q ≡ ok tt
      → find_row (is_item ws other) db'.items ≡ some i
      → hash (request_body ops item r) ≢ hash (request_body ops other q)
      → record_movement ops hash now' id' ws other key q db' ≡ err conflict
  record_conflict now id now' id' ws item other key r q rec i db db' h valid found ne =
      let x = record-IsRecorded now id ws item key r rec db db' h in
      unfold record_movement in
      ground (
        arith,
        x.key_valid,
        valid,
        found,
        x.stored,
        str_ne x.stored.0.request_hash (hash (request_body ops other q))
            (λ e. ne (sym x.stored.2 ∙ e)),
      )
