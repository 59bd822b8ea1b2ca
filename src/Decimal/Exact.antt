-- ===== src/Decimal/Exact.antt =====
-- Operations on decimals that meet the laws: exact sums of quantities, and a quotient rounded up in
-- the last of 28 decimals.
use native.Mathlib.Nat.{div-lt_iff_lt-mul, mul-le-mul_right, le_of_mul-le-mul_right}
use backhaus_ai_backend.Base.{
  ℕ, zero, suc, ◌+◌, ◌-◌, ◌*◌, ◌/◌, ◌^◌, ◌≤◌, ◌<◌, ◌≡◌, refl, sym, subst, ◌↔◌, arith,
}
use backhaus_ai_backend.Base.Int.{
  ℤ, pos, negsuc, pos_part, neg_part, ◌+ℤ◌, ◌-ℤ◌, ◌*ℤ◌, ◌≤ℤ◌, ltb_ℤ, +ℤ_parts, -ℤ_parts,
  eq_of_parts,
}
use backhaus_ai_backend.Decimal.{Decimal, Arithmetic, Laws, value, unit}

times-parts :
    (x : ℤ) (c : ℕ)
    → (pos_part (x *ℤ pos c) ≡ pos_part x * c) × (neg_part (x *ℤ pos c) ≡ neg_part x * c)
unfolding ◌*ℤ◌
times-parts (pos n) c = (ground arith, ground arith)
times-parts (negsuc n) c = (ground arith, ground arith)

-- The mantissa of a quantity at three decimals.
unfoldable pub thousandths : Decimal → ℤ
thousandths d = d.mantissa *ℤ pos (10 ^ (3 - d.scale))

thousandths-parts :
    (m : ℤ) (s : ℕ)
    → s ≤ 3
    → let d : Decimal = record { mantissa = m; scale = s } in
      (pos_part (value d) ≡ pos_part (thousandths d) * 10 ^ 25)
      × (neg_part (value d) ≡ neg_part (thousandths d) * 10 ^ 25)
unfolding thousandths value
thousandths-parts m zero h = omega (arith, times-parts m (10 ^ 28), times-parts m (10 ^ 3))
thousandths-parts m (suc zero) h = omega (arith, times-parts m (10 ^ 27), times-parts m (10 ^ 2))
thousandths-parts m (suc (suc zero)) h =
    omega (arith, times-parts m (10 ^ 26), times-parts m (10 ^ 1))
thousandths-parts m (suc (suc (suc zero))) h =
    omega (arith, times-parts m (10 ^ 25), times-parts m (10 ^ 0))
thousandths-parts m (suc (suc (suc (suc s)))) h = absurd (omega arith)

unfoldable pub ceil_div : ℕ → ℕ → ℕ
ceil_div a b = (a + b - 1) / b

ceil_div-le : (a b m : ℕ) → 0 < b → (ceil_div a b ≤ m) ↔ (a ≤ m * b)
unfolding ceil_div
ceil_div-le a b m h =
    let e = div-lt_iff_lt-mul {k = b} {x = a + b - 1} {y = m + 1} h in
    (λ l. grind (arith, e.0 (omega arith)), λ l. omega (arith, e.1 (grind arith)))

-- Sums are taken in thousandths; a result outside of the laws is in finest units.
abbrev pub exact : Arithmetic
exact = record {
  add = λ a b. record { mantissa = thousandths a +ℤ thousandths b; scale = 3 };
  sub = λ a b. record { mantissa = thousandths a -ℤ thousandths b; scale = 3 };
  div = λ a b. record {
    mantissa = pos (ceil_div (pos_part (value a) * unit) (pos_part (value b)));
    scale = 28;
  };
  neg = λ a. record { mantissa = pos 0 -ℤ a.mantissa; scale = a.scale };
  ceil = λ a. record { mantissa = pos (ceil_div (pos_part (value a)) unit); scale = 0 };
  lt = λ a b. ltb_ℤ (value a) (value b);
  show = λ a. "";
  print = λ a. "";
}

value-thousandths :
    (x : ℤ)
    → let d : Decimal = record { mantissa = x; scale = 3 } in
      (pos_part (value d) ≡ pos_part x * 10 ^ 25) × (neg_part (value d) ≡ neg_part x * 10 ^ 25)
unfolding value
value-thousandths x = times-parts x (10 ^ 25)

value-pos : (q s : ℕ) → value (record { mantissa = pos q; scale = s }) ≡ pos (q * 10 ^ (28 - s))
unfolding value
value-pos q s = let e = times-parts (pos q) (10 ^ (28 - s)) in eq_of_parts _ _ (omega (arith, e))

parts :
    (d : Decimal)
    → d.scale ≤ 3
    → (pos_part (value d) ≡ pos_part (thousandths d) * 10 ^ 25)
      × (neg_part (value d) ≡ neg_part (thousandths d) * 10 ^ 25)
parts d h = thousandths-parts d.mantissa d.scale h

add-value : (a b : Decimal) → a.scale ≤ 3 → b.scale ≤ 3 → value (exact.add a b) ≡ value a +ℤ value b
add-value a b h k = eq_of_parts _ _ (
    omega (
      arith,
      value-thousandths (thousandths a +ℤ thousandths b),
      parts a h,
      parts b k,
      +ℤ_parts (thousandths a) (thousandths b),
      +ℤ_parts (value a) (value b),
    ))

sub-value : (a b : Decimal) → a.scale ≤ 3 → b.scale ≤ 3 → value (exact.sub a b) ≡ value a -ℤ value b
sub-value a b h k = eq_of_parts _ _ (
    omega (
      arith,
      value-thousandths (thousandths a -ℤ thousandths b),
      parts a h,
      parts b k,
      -ℤ_parts (thousandths a) (thousandths b),
      -ℤ_parts (value a) (value b),
    ))

neg-times : (m : ℤ) (c : ℕ) → (pos 0 -ℤ m) *ℤ pos c ≡ pos 0 -ℤ (m *ℤ pos c)
unfolding ◌-ℤ◌ ◌*ℤ◌
neg-times (pos zero) c = ground arith
neg-times (pos (suc n)) c = ground arith
neg-times (negsuc n) c = ground arith

neg-value : (a : Decimal) → value (exact.neg a) ≡ pos 0 -ℤ value a
unfolding value
neg-value a = neg-times a.mantissa (10 ^ (28 - a.scale))

unit-pos : 0 < unit
unfolding unit
unit-pos = omega arith

scaled : (a b n : ℕ) → (a * unit ≤ n * unit * b) ↔ (a ≤ n * b)
scaled a b n =
    let e : n * unit * b ≡ n * b * unit = omega arith in
    (
      λ l. le_of_mul-le-mul_right {k = unit} (subst (λ x. a * unit ≤ x) e l) unit-pos,
      λ l. subst (λ x. a * unit ≤ x) (sym e) (mul-le-mul_right unit l),
    )

nonneg : (x : ℤ) → pos 0 ≤ℤ x → neg_part x ≡ 0
nonneg (pos n) h = refl
nonneg (negsuc n) h = absurd (omega arith)

div-value :
    (a b : Decimal) (n : ℕ)
    → 0 < pos_part (value b)
    → (pos 0 ≤ℤ value (exact.div a b))
      × ((value (exact.div a b) ≤ℤ pos (n * unit)) ↔ (pos_part (value a) ≤ n * pos_part (value b)))
div-value a b n h =
    let q : ℕ = ceil_div (pos_part (value a) * unit) (pos_part (value b)) in
    let e : value (exact.div a b) ≡ pos (q * 1) = value-pos q 28 in
    let d = ceil_div-le (pos_part (value a) * unit) (pos_part (value b)) (n * unit) h in
    (
      rw e (omega arith),
      (
        λ l.
            (scaled (pos_part (value a)) (pos_part (value b)) n).0 (d.0 (omega (arith, rw e at l))),
        λ l. rw e (omega (arith, d.1 ((scaled (pos_part (value a)) (pos_part (value b)) n).1 l))),
      ),
    )

ceil-value :
    (d : Decimal)
    → pos 0 ≤ℤ value d
    → (k : ℕ) × (value (exact.ceil d) ≡ pos (k * unit))
      × ((n : ℕ) → (value d ≤ℤ pos (n * unit)) ↔ (k ≤ n))
ceil-value d h =
    let k : ℕ = ceil_div (pos_part (value d)) unit in
    (
      k,
      unfold unit in value-pos k 0,
      λ n.
          let e = ceil_div-le (pos_part (value d)) unit n unit-pos in
          (
            λ l. e.1 (omega (arith, nonneg (value d) h)),
            λ l. omega (arith, e.0 l, nonneg (value d) h),
          ),
    )

-- The laws can be met.
pub exact-Laws : Laws exact
exact-Laws = record {
  lt_value = λ a b. refl;
  add_exact = λ m n a b h k r. (add-value a b h.decimals k.decimals, omega arith);
  sub_exact = λ m n a b h k r. (sub-value a b h.decimals k.decimals, omega arith);
  neg_exact = λ a. (neg-value a, refl);
  div_bound = λ a b n h k p q. div-value a b n q;
  ceil_least = ceil-value;
}
