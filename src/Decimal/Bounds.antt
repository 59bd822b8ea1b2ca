-- ===== src/Decimal/Bounds.antt =====
-- The size of the results of the decimal operations.
use backhaus_ai_backend.Base.{ℕ, ◌+◌, ◌≤◌, arith}
use backhaus_ai_backend.Base.Int.{pos, -ℤ_parts, +ℤ_parts}
use backhaus_ai_backend.Decimal.{Decimal, Arithmetic, Laws, Within, value, unit, range}
use native.Mathlib.Nat.{mul-le-mul_right, add-mul}

pub Within-mono : (m n : ℕ) (d : Decimal) → m ≤ n → Within m d → Within n d
Within-mono m n d h w = record {
  decimals = w.decimals;
  above = omega (arith, w.above, mul-le-mul_right {m = m} {n = n} unit h);
  below = omega (arith, w.below, mul-le-mul_right {m = m} {n = n} unit h);
}

module _ (ops : Arithmetic) (laws : Laws ops) where
  pub sub-Within :
      (m n : ℕ) (a b : Decimal)
      → Within m a
      → Within n b
      → m + n ≤ range
      → Within (m + n) (ops.sub a b)
  sub-Within m n a b h k r =
      let e = laws.sub_exact m n a b h k r in
      record {
        decimals = e.1;
        above =
            ground (arith, e.0, -ℤ_parts (value a) (value b), add-mul m n unit, h.above, k.below);
        below =
            ground (arith, e.0, -ℤ_parts (value a) (value b), add-mul m n unit, h.below, k.above);
      }

  pub add-Within :
      (m n : ℕ) (a b : Decimal)
      → Within m a
      → Within n b
      → m + n ≤ range
      → Within (m + n) (ops.add a b)
  add-Within m n a b h k r =
      let e = laws.add_exact m n a b h k r in
      record {
        decimals = e.1;
        above =
            ground (arith, e.0, +ℤ_parts (value a) (value b), add-mul m n unit, h.above, k.above);
        below =
            ground (arith, e.0, +ℤ_parts (value a) (value b), add-mul m n unit, h.below, k.below);
      }

  pub neg-Within : (n : ℕ) (a : Decimal) → Within n a → Within n (ops.neg a)
  neg-Within n a h =
      let e = laws.neg_exact a in
      record {
        decimals = ground (arith, e.1, h.decimals);
        above = ground (arith, e.0, -ℤ_parts (pos 0) (value a), h.below);
        below = ground (arith, e.0, -ℤ_parts (pos 0) (value a), h.above);
      }
