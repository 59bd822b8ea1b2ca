-- ===== src/Decimal.antt =====
-- Exact decimals. `rust_decimal::Decimal` and the NUMERIC columns hold a whole number `mantissa`
-- over a power of ten. The crate's operations are not part of this repository: they are fields of a
-- record, with what its documentation says of them as laws.
pub mod Exact
pub mod Bounds
use backhaus_ai_backend.Base.{
  ℕ, suc, ◌+◌, ◌-◌, ◌*◌, ◌^◌, ◌≤◌, ◌<◌, ◌≡◌, ◌↔◌, ◌⊎◌, Bool, not, ◌&&◌, if◌then◌else◌, String,
  arith,
}
use backhaus_ai_backend.Base.Int.{ℤ, pos, negsuc, pos_part, neg_part, ◌+ℤ◌, ◌-ℤ◌, ◌*ℤ◌, ◌≤ℤ◌, ltb_ℤ}

-- mantissa / 10 ^ scale; `scale()` is the field.
pub record Decimal : Type 0 where
  pub mantissa : ℤ
  pub scale : ℕ

-- `Decimal::from` on a whole number
abbrev pub whole : ℕ → Decimal
whole n = record { mantissa = pos n; scale = 0 }

-- The number of finest units (10 ^ -28) in one; a `Decimal` has at most 28 decimals.
unfoldable pub unit : ℕ
unit = 10 ^ 28

-- What a decimal stands for, in finest units.
unfoldable pub value : Decimal → ℤ
value d = d.mantissa *ℤ pos (10 ^ (28 - d.scale))

pub value-whole : (n : ℕ) → value (whole n) ≡ pos (n * unit)
unfolding value unit ◌*ℤ◌
value-whole n = ground arith

-- The largest quantity that the laws below speak of.
unfoldable pub range : ℕ
range = 10 ^ 9

-- At most three decimals, and at most `n` in size: a stock quantity.
pub record Within (n : ℕ) (d : Decimal) : Type 0 where
  pub decimals : d.scale ≤ 3
  pub above : pos_part (value d) ≤ n * unit
  pub below : neg_part (value d) ≤ n * unit

-- The operations of the crate that the code calls.
pub record Arithmetic : Type 0 where
  pub add : Decimal → Decimal → Decimal
  pub sub : Decimal → Decimal → Decimal
  pub div : Decimal → Decimal → Decimal
  pub neg : Decimal → Decimal
  pub ceil : Decimal → Decimal
  pub lt : Decimal → Decimal → Bool
  -- `normalize().to_string()`
  pub show : Decimal → String
  -- `to_string()`
  pub print : Decimal → String

-- Further operations of the crate, which only the preparation of orders calls.
pub record Rounding : Type 0 where
  pub mul : Decimal → Decimal → Decimal
  pub round_dp : ℕ → Decimal → Decimal
  pub normalize : Decimal → Decimal

-- What is used of them. Decimals are compared by value. The sum of two quantities fits the 96 bits
-- of a mantissa, so it is exact. A quotient has 28 digits, so a whole number bounds it as it bounds
-- the exact quotient of two quantities.
pub record Laws (ops : Arithmetic) : Type 0 where
  pub lt_value : (a b : Decimal) → ops.lt a b ≡ ltb_ℤ (value a) (value b)
  pub add_exact :
      (m n : ℕ) (a b : Decimal)
      → Within m a
      → Within n b
      → m + n ≤ range
      → (value (ops.add a b) ≡ value a +ℤ value b) × ((ops.add a b).scale ≤ 3)
  pub sub_exact :
      (m n : ℕ) (a b : Decimal)
      → Within m a
      → Within n b
      → m + n ≤ range
      → (value (ops.sub a b) ≡ value a -ℤ value b) × ((ops.sub a b).scale ≤ 3)
  pub neg_exact :
      (a : Decimal) → (value (ops.neg a) ≡ pos 0 -ℤ value a) × ((ops.neg a).scale ≡ a.scale)
  pub div_bound :
      (a b : Decimal) (n : ℕ)
      → Within range a
      → Within range b
      → 0 < pos_part (value a)
      → 0 < pos_part (value b)
      → (pos 0 ≤ℤ value (ops.div a b))
        × ((value (ops.div a b) ≤ℤ pos (n * unit)) ↔ (pos_part (value a) ≤ n * pos_part (value b)))
  pub ceil_least :
      (d : Decimal)
      → pos 0 ≤ℤ value d
      → (k : ℕ) × (value (ops.ceil d) ≡ pos (k * unit))
        × ((n : ℕ) → (value d ≤ℤ pos (n * unit)) ↔ (k ≤ n))

-- `a <= b`, and `Ord::max`.
module _ (ops : Arithmetic) where
  abbrev pub le : Decimal → Decimal → Bool
  le a b = not (ops.lt b a)

  abbrev pub max_of : Decimal → Decimal → Decimal
  max_of a b = if ops.lt b a then a else b

  abbrev pub eq_of : Decimal → Decimal → Bool
  eq_of a b = not (ops.lt a b) && not (ops.lt b a)
