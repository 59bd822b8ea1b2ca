-- ===== src/Inventory/Tests.antt =====
-- The theorems on stock movements at concrete inputs.
use backhaus_ai_backend.Base.{
  ◌≤◌, ◌+◌, ◌≡◌, refl, true, none, some, [], ◌∷◌, arith, find_row, String,
}
use text.Mathlib.TextEquality.{eq_iff}
use backhaus_ai_backend.Base.Int.{◌+ℤ◌, ◌-ℤ◌, ◌*ℤ◌}
use backhaus_ai_backend.Base.Json.{Json, object, field, string}
use backhaus_ai_backend.Base.Result.{ok, err}
use backhaus_ai_backend.Base.Text.{trim}
use backhaus_ai_backend.Decimal.{whole, value, unit, range, Within}
use backhaus_ai_backend.Decimal.Exact.{exact, exact-Laws, thousandths}
use backhaus_ai_backend.Store.{Db, empty_db}
use backhaus_ai_backend.Store.Stock.{Item}
use backhaus_ai_backend.Inventory.{
  MovementRequest, issue, Recorded, record_movement, validate, request_body, is_item,
  business_date_now, response_of, status_of, balanced, delta_of, apply_movement,
}
use backhaus_ai_backend.Inventory.Requests.{record_again}
use backhaus_ai_backend.Inventory.Balance.{
  IsBalanced, record_balance, status_agrees, sql_status, most,
}

-- Six in the morning in Lagos is five in UTC.
morning : business_date_now (86400000000 + 18000000000) ≡ 1
unfolding business_date_now
morning = refl

before_morning : business_date_now (86400000000 + 17999999999) ≡ 0
unfolding business_date_now
before_morning = refl

abbrev rice : Item
rice = record {
  workspace = "w";
  id = "rice";
  name = "Rice";
  unit = some "kg";
  par_level = some (whole 20);
  current_balance = whole 30;
  supplier = none;
}

abbrev stock_db : Db
stock_db = record empty_db { items = rice ∷ [] }

abbrev kitchen : MovementRequest
kitchen = record {
  kind = issue;
  quantity = whole 12;
  reason = " kitchen ";
  expected_balance = some (whole 30);
}

abbrev waste : MovementRequest
waste = record { kind = issue; quantity = whole 12; reason = "waste"; expected_balance = none }

-- A digest that keeps the reason of the request.
abbrev digest : Json → String
digest (object (field _ _ (field _ _ (field _ _ (field _ (string s) _))))) = s
digest _ = ""

abbrev first_use : Recorded × Db
first_use = elim (record_movement exact digest 0 5 "w" "rice" "key" kitchen stock_db) [
  | ok r ↦ r
  | err _ ↦ (record { response = response_of exact 0 5 kitchen rice; reused = true }, empty_db)
]

first_ok : record_movement exact digest 0 5 "w" "rice" "key" kitchen stock_db ≡ ok first_use
unfolding record_movement validate request_body apply_movement delta_of status_of value unit ◌*ℤ◌
    ◌+ℤ◌ ◌-ℤ◌ thousandths trim
first_ok = refl

record_again_example :
    record_movement exact digest 99 6 "w" "rice" "key" kitchen first_use.1
    ≡ ok (record { response = first_use.0.response; reused = true }, first_use.1)
record_again_example =
    record_again exact digest 0 5 99 6 "w" "rice" "key" kitchen first_use.0 stock_db first_use.1
      first_ok

waste_valid : validate exact waste ≡ ok tt
unfolding validate value unit ◌*ℤ◌ trim
waste_valid = refl

abbrev rice_left : Item
rice_left = balanced (exact.add (whole 30) (delta_of exact kitchen (whole 30))) rice

left_found : find_row (is_item "w" "rice") first_use.1.items ≡ some rice_left
unfolding record_movement validate request_body apply_movement delta_of status_of value unit ◌*ℤ◌
    ◌+ℤ◌ ◌-ℤ◌ thousandths trim
left_found = refl

digests_differ :
    ¬ (digest (request_body exact "rice" kitchen) ≡ digest (request_body exact "rice" waste))
unfolding request_body trim
digests_differ h = ground (arith, (eq_iff "kitchen" "waste").1 h)

rice_Within : Within 100 (whole 30)
unfolding value unit ◌*ℤ◌
rice_Within = record { decimals = omega arith; above = omega arith; below = omega arith }

small : 100 + 100 + most ≤ range
unfolding most range
small = omega arith

record_balance_example :
    (j : Item) × IsBalanced "w" "rice" kitchen rice j first_use.0 stock_db first_use.1
record_balance_example =
    record_balance exact exact-Laws digest 100 0 5 "w" "rice" "key" kitchen first_use.0 rice
      stock_db first_use.1 first_ok refl refl rice_Within small

status_agrees_example :
    status_of exact (some (whole 20)) (whole 18) ≡ sql_status exact (some (whole 20)) (whole 18)
status_agrees_example = status_agrees exact (some (whole 20)) (whole 18)
