-- ===== src/Inventory/Balance.antt =====
-- What a stock movement does to the balance, in exact numbers, and the status of an item.
use backhaus_ai_backend.Base.{
  ℕ, ◌+◌, ◌≤◌, ◌≡◌, ◌⊎◌, refl, sym, ap, ◌∙◌, subst, inl, inr, true, false, Option, none, some, [],
  ◌∷◌, ◌++◌, String, find_row, update_rows, arith, find_row_sound, find_row-update_rows,
  if◌then◌else◌,
}
use backhaus_ai_backend.Base.Int.{ℤ, pos, negsuc, neg_part, ◌+ℤ◌, ◌-ℤ◌, ◌≤ℤ◌, ltb_ℤ, int_laws}
use backhaus_ai_backend.Base.Json.{Json}
use backhaus_ai_backend.Base.Result.{ok}
use backhaus_ai_backend.Decimal.{
  Decimal, Arithmetic, Laws, Within, value, range, whole, le, value-whole,
}
use backhaus_ai_backend.Decimal.Bounds.{Within-mono, sub-Within, neg-Within}
use backhaus_ai_backend.Base.Text.{str_eq_refl}
use text.Mathlib.TextEquality.{eq_iff}
use backhaus_ai_backend.Store.{Db}
use backhaus_ai_backend.Store.Stock.{
  Item, Movement, StockStatus, out_of_stock, below_par, in_stock, par_not_set,
}
use backhaus_ai_backend.Inventory.{
  MovementKind, MovementRequest, issue, receipt, count, Recorded, record_movement, is_item, is_key,
  balanced, validate, delta_of, status_of, movement_row,
}

-- INVENTORY_STATUS_SQL of src/tables.rs; a comparison with NULL is not true.
unfoldable pub sql_status : Arithmetic → Option Decimal → Decimal → StockStatus
sql_status ops par balance = if le ops balance (whole 0) then out_of_stock else (elim par [
  | none ↦ par_not_set
  | some p ↦
      if le ops p (whole 0) then par_not_set else (if ops.lt balance p then below_par else in_stock)
])

-- The status that a movement answers with is the one that the inventory table shows.
pub status_agrees :
    (ops : Arithmetic) (par : Option Decimal) (balance : Decimal)
    → status_of ops par balance ≡ sql_status ops par balance
unfolding status_of sql_status
status_agrees ops none balance = ground arith
status_agrees ops (some p) balance = ground arith

-- The balance that a movement of the request leaves, in exact numbers.
abbrev exact_balance : MovementKind → ℤ → ℤ → ℤ
exact_balance issue current quantity = current -ℤ quantity
exact_balance receipt current quantity = current +ℤ quantity
exact_balance count current quantity = quantity

no_neg : (a : ℤ) → pos 0 ≤ℤ a → neg_part a ≡ 0
no_neg (pos n) h = refl
no_neg (negsuc n) h = omega arith

nonneg : (a : ℤ) → ltb_ℤ a (pos 0) ≡ false → pos 0 ≤ℤ a
nonneg a h = ground arith

back : (a b : ℤ) → a +ℤ (b -ℤ a) ≡ b
back a b = omega int_laws

diff : (a b : ℤ) → b ≡ a +ℤ b -ℤ a
diff a b = omega int_laws

issued : (a b : ℤ) → pos 0 -ℤ b ≡ a -ℤ b -ℤ a
issued a b = omega int_laws

kind-cases : (k : MovementKind) → (k ≡ issue) ⊎ (k ≡ receipt) ⊎ (k ≡ count)
kind-cases issue = inl refl
kind-cases receipt = inr (inl refl)
kind-cases count = inr (inr refl)

-- The largest quantity that a request may name.
unfoldable pub most : ℕ
most = 1000000

module _ (ops : Arithmetic) (laws : Laws ops) where
  quantity-sign :
      (k : MovementKind) (d : Decimal)
      → elim k [ count ↦ ops.lt d (whole 0) | _ ↦ le ops d (whole 0) ] ≡ false
      → pos 0 ≤ℤ value d
  quantity-sign issue d h = ground (arith, laws.lt_value (whole 0) d, value-whole 0)
  quantity-sign receipt d h = ground (arith, laws.lt_value (whole 0) d, value-whole 0)
  quantity-sign count d h = ground (arith, laws.lt_value d (whole 0), value-whole 0)

  -- A valid request names a quantity of three decimals from zero to a million.
  quantity-Within :
      (r : MovementRequest)
      → validate ops r ≡ ok tt
      → Within most r.quantity × (pos 0 ≤ℤ value r.quantity)
  unfolding validate most
  quantity-Within r h =
      let sign : pos 0 ≤ℤ value r.quantity = quantity-sign r.kind r.quantity (ground arith) in
      let upper : ops.lt (whole 1000000) r.quantity ≡ false = ground arith in
      (
        record {
          decimals = ground arith;
          above =
              ground (arith, upper, laws.lt_value (whole 1000000) r.quantity, value-whole 1000000);
          below = omega (arith, no_neg (value r.quantity) sign);
        },
        sign,
      )

  module _ (n : ℕ) (r : MovementRequest) (current : Decimal) (stock : Within n current)
      (small : n + n + most ≤ range) (valid : validate ops r ≡ ok tt) where
    delta_value :
        (value (delta_of ops r current)
          ≡ exact_balance r.kind (value current) (value r.quantity) -ℤ value current)
        × Within (n + most) (delta_of ops r current)
    delta_value = elim (kind-cases r.kind) [
      | inl e ↦
          unfold delta_of in
          rw e (
            (
              (laws.neg_exact r.quantity).0 ∙ issued (value current) (value r.quantity),
              Within-mono most (n + most) _ (omega arith)
                  (neg-Within ops laws most r.quantity (quantity-Within r valid).0),
            ))
      | inr (inl e) ↦
          unfold delta_of in
          rw e (
            (
              diff (value current) (value r.quantity),
              Within-mono most (n + most) _ (omega arith) (quantity-Within r valid).0,
            ))
      | inr (inr e) ↦
          unfold delta_of in
          rw e (
            (
              (laws.sub_exact most n r.quantity current (quantity-Within r valid).0 stock
                  (omega arith)).0,
              Within-mono (most + n) (n + most) _ (omega arith) (
                  sub-Within ops laws most n r.quantity current (quantity-Within r valid).0 stock
                    (omega arith)),
            ))
    ]

    abbrev balance : Decimal
    balance = ops.add current (delta_of ops r current)

    balance_value : value balance ≡ exact_balance r.kind (value current) (value r.quantity)
    balance_value =
        (laws.add_exact n (n + most) current _ stock delta_value.1 (omega arith)).0
        ∙ ap (λ x. value current +ℤ x) delta_value.0
        ∙ back (value current) _

-- A movement's entry in the ledger, and the item's row after it.
pub record IsBalanced (ws item : String) (r : MovementRequest) (i j : Item) (rec : Recorded)
    (db db' : Db) : Type 0 where
  pub stored : find_row (is_item ws item) db'.items ≡ some j
  pub exact :
      value j.current_balance ≡ exact_balance r.kind (value i.current_balance) (value r.quantity)
  pub not_negative : pos 0 ≤ℤ value j.current_balance
  pub answered : (rec.response.balance ≡ j.current_balance) × (rec.reused ≡ false)
  pub ledger :
      (m : Movement) × (db'.movements ≡ db.movements ++ m ∷ [])
      × (m.item_id ≡ item)
      × (m.balance_after ≡ j.current_balance)
      × (value m.quantity_delta ≡ value j.current_balance -ℤ value i.current_balance)

module _ (ops : Arithmetic) (laws : Laws ops) (hash : Json → String) where
  -- The first use of a key, on an item whose balance is a quantity of at most `n`: an issue takes its
  -- quantity off the balance, a receipt adds it, a count puts it in the balance's place, the result
  -- is not negative and is what the item's row and the answer hold, and one movement is recorded,
  -- whose change is the difference of the two balances.
  pub record_balance :
      (n now id : ℕ) (ws item key : String) (r : MovementRequest) (rec : Recorded) (i : Item)
      (db db' : Db)
      → record_movement ops hash now id ws item key r db ≡ ok (rec, db')
      → find_row (is_key ws key) db.movement_requests ≡ none
      → find_row (is_item ws item) db.items ≡ some i
      → Within n i.current_balance
      → n + n + most ≤ range
      → (j : Item) × IsBalanced ws item r i j rec db db'
  record_balance n now id ws item key r rec i db db' h fresh found stock small =
      let valid : validate ops r ≡ ok tt = unfold record_movement in ground (arith, fresh, found) in
      let id_is : i.id ≡ item = (eq_iff i.id item).0 (ground (arith, row_is)) in
      let value_is = balance_value ops laws n r i.current_balance stock small valid in
      let delta_is = delta_value ops laws n r i.current_balance stock small valid in
      let b : Decimal = ops.add i.current_balance (delta_of ops r i.current_balance) in
      let items_are : db'.items ≡ update_rows (is_item ws i.id) (balanced b) db.items =
        unfold record_movement in ground (arith, fresh, found) in
      (
        balanced b i,
        record {
          stored =
              subst (λ xs. find_row (is_item ws item) xs ≡ some (balanced b i)) (sym items_are)
                (find_row-update_rows (is_item ws item) (is_item ws i.id) (balanced b) db.items
                    (λ _. refl) found
                  ∙ ground (arith, own_row));
          exact = value_is;
          not_negative = nonneg (value b) (
              unfold record_movement in
              ground (arith, fresh, found, laws.lt_value b (whole 0), value-whole 0));
          answered = unfold record_movement in ground (arith, fresh, found);
          ledger = (
            movement_row ops now id ws key r i,
            (unfold record_movement in ground (arith, fresh, found)),
            id_is,
            refl,
            delta_is.0 ∙ sym (ap (λ x. x -ℤ value i.current_balance) value_is),
          );
        },
      )
    where
      row_is : is_item ws item i ≡ true
      row_is = find_row_sound (is_item ws item) db.items found

      own_row : is_item ws i.id i ≡ true
      own_row = ground (arith, row_is, str_eq_refl i.id)
