-- ===== src/Purchasing/Packs.antt =====
-- src/purchasing.rs: the pure ordering rule `packs_to_order`.
use backhaus_ai_backend.Base.{
  ℕ, ◌+◌, ◌*◌, ◌≤◌, ◌<◌, ◌≡◌, ap, ◌∙◌, sym, subst, ◌↔◌, ◌⊎◌, inl, inr, true, false, ◌||◌,
  if◌then◌else◌, arith, Option, none, some, ltb, max, Bool-cases,
}
use backhaus_ai_backend.Base.Int.{ℤ, pos, pos_part, ◌-ℤ◌, ◌≤ℤ◌}
use backhaus_ai_backend.Decimal.Bounds.{sub-Within, Within-mono}
use native.Mathlib.Nat.{mul-le-mul_right, mul-lt-mul_of_pos_right}
use backhaus_ai_backend.Decimal.{
  Decimal, Arithmetic, Laws, Within, value-whole, whole, value, unit, range, le, max_of,
}

abbrev or_par : Option Decimal → Decimal → Decimal
or_par none par = par
or_par (some t) par = t

-- reorder_target.unwrap_or(par_level).max(par_level)
unfoldable pub order_target : Arithmetic → Decimal → Option Decimal → Decimal
order_target ops par target = max_of ops (or_par target par) par

unfoldable pub packs_to_order :
    Arithmetic → Decimal → Decimal → Option Decimal → Decimal → Decimal → Decimal → Option Decimal
unfolding order_target
packs_to_order ops current par target on_order per_pack minimum =
    let shortage = ops.sub (ops.sub (order_target ops par target) current) on_order in
    let packs = ops.ceil (ops.div shortage per_pack) in
    if le ops shortage (whole 0) || le ops per_pack (whole 0)
    then none
    else some (max_of ops (max_of ops packs (ops.ceil minimum)) (whole 1))

unit-pos : 0 < unit
unfolding unit
unit-pos = omega arith

lt-scaled : (k n u : ℕ) → 0 < u → ltb (k * u) (n * u) ≡ ltb k n
lt-scaled k n u h = elim (Bool-cases (ltb k n)) [
  | inl e ↦ rw e (ground (arith, mul-lt-mul_of_pos_right {m = k} {n = n} {k = u}))
  | inr e ↦ rw e (ground (arith, mul-le-mul_right {m = n} {n = k} u))
]

max_left : (n k : ℕ) → ltb n k ≡ true → k ≡ max k n
max_left n k h = ground arith

max_right : (n k : ℕ) → ltb n k ≡ false → n ≡ max k n
max_right n k h = ground arith

max-least : (a b m : ℕ) → 1 ≤ m → a ≤ m → b ≤ m → max (max a b) 1 ≤ m
max-least a b m h k l = omega arith

-- `0 < value`, for a decimal that a test has found to be more than zero.
module _ (ops : Arithmetic) (laws : Laws ops) where
  not-le-zero : (d : Decimal) → le ops d (whole 0) ≡ false → 0 < pos_part (value d)
  not-le-zero d h = ground (arith, laws.lt_value (whole 0) d, value-whole 0)

  more-than-zero : (d : Decimal) → le ops d (whole 0) ≡ false → ¬ (value d ≤ℤ pos 0)
  more-than-zero d h k = ground (arith, laws.lt_value (whole 0) d, value-whole 0)

  le-zero : (d : Decimal) → le ops d (whole 0) ≡ true → value d ≤ℤ pos 0
  le-zero d h = ground (arith, laws.lt_value (whole 0) d, value-whole 0)

  max-whole :
      (a b : Decimal) (k n : ℕ)
      → value a ≡ pos (k * unit)
      → value b ≡ pos (n * unit)
      → value (max_of ops a b) ≡ pos (max k n * unit)
  max-whole a b k n ea eb = elim (Bool-cases (ltb n k)) [
    | inl e ↦
        ground (
          arith,
          laws.lt_value b a,
          lt-scaled n k unit unit-pos,
          ap (λ x. x * unit) (max_left n k e),
        )
    | inr e ↦ ground (
      arith,
      laws.lt_value b a,
      lt-scaled n k unit unit-pos,
      ap (λ x. x * unit) (max_right n k e),
    )
  ]

-- The stock figures of one item, all of them quantities up to `n`.
pub record IsStock (n : ℕ) (current par : Decimal) (target : Option Decimal)
    (on_order per_pack minimum : Decimal) : Type 0 where
  pub current_within : Within n current
  pub par_within : Within n par
  pub target_within : Within n (or_par target par)
  pub on_order_within : Within n on_order
  pub per_pack_within : Within n per_pack
  pub minimum_sign : pos 0 ≤ℤ value minimum
  pub small : n + n + n ≤ range

Within-max :
    (ops : Arithmetic) (n : ℕ) (a b : Decimal) → Within n a → Within n b → Within n (max_of ops a b)
Within-max ops n a b h k = elim (Bool-cases (ops.lt b a)) [ inl e ↦ rw e h | inr e ↦ rw e k ]

module _ (ops : Arithmetic) (laws : Laws ops) where
  -- `packs` is the least whole number, one at least, that meets the minimum order and whose content
  -- is no less than the shortage.
  abbrev pub IsLeastOrder : ℤ → Decimal → Decimal → ℕ → Type 0
  IsLeastOrder shortage per_pack minimum packs =
      (1 ≤ packs)
      × (pos_part shortage ≤ packs * pos_part (value per_pack))
      × (value minimum ≤ℤ pos (packs * unit))
      × ((n : ℕ)
          → 1 ≤ n
          → pos_part shortage ≤ n * pos_part (value per_pack)
          → value minimum ≤ℤ pos (n * unit)
          → packs ≤ n)

  shortage_of : Decimal → Decimal → Option Decimal → Decimal → Decimal
  unfolding order_target
  shortage_of current par target on_order =
      ops.sub (ops.sub (order_target ops par target) current) on_order

  module _ (n : ℕ) (current par : Decimal) (target : Option Decimal)
      (on_order per_pack minimum : Decimal)
      (stock : IsStock n current par target on_order per_pack minimum) where
    abbrev pub shortage : ℤ
    shortage = value (order_target ops par target) -ℤ value current -ℤ value on_order

    left-Within : Within (n + n) (ops.sub (order_target ops par target) current)
    unfolding order_target
    left-Within =
        sub-Within ops laws n n _ current
          (Within-max ops n (or_par target par) par stock.target_within stock.par_within)
          stock.current_within (omega (arith, stock.small))

    shortage_exact : value (shortage_of current par target on_order) ≡ shortage
    unfolding shortage_of order_target
    shortage_exact =
        (laws.sub_exact (n + n) n _ on_order left-Within stock.on_order_within stock.small).0
        ∙ ap (λ x. x -ℤ value on_order)
            (laws.sub_exact n n _ current
              (Within-max ops n (or_par target par) par stock.target_within stock.par_within)
              stock.current_within (omega (arith, stock.small))).0

    shortage-Within : Within range (shortage_of current par target on_order)
    unfolding shortage_of
    shortage-Within =
        Within-mono (n + n + n) range _ stock.small
          (sub-Within ops laws (n + n) n _ on_order left-Within stock.on_order_within stock.small)

    tests_fail :
        {p : Decimal}
        → packs_to_order ops current par target on_order per_pack minimum ≡ some p
        → (le ops (shortage_of current par target on_order) (whole 0) ≡ false)
          × (le ops per_pack (whole 0) ≡ false)
          × (p
              ≡ max_of ops
                  (max_of ops
                    (ops.ceil (ops.div (shortage_of current par target on_order) per_pack))
                    (ops.ceil minimum))
                  (whole 1))
    unfolding packs_to_order shortage_of
    tests_fail h = ground arith

    -- An order is the least whole number of packs, at least one, that covers what the stock and the
    -- open orders lack of the target and that meets the vendor's minimum.
    pub packs_least :
        {p : Decimal}
        → packs_to_order ops current par target on_order per_pack minimum ≡ some p
        → (k : ℕ) × (value p ≡ pos (k * unit)) × IsLeastOrder shortage per_pack minimum k
    packs_least {p = p} h =
        let s : Decimal = shortage_of current par target on_order in
        let t = tests_fail h in
        let s_pos : 0 < pos_part (value s) = not-le-zero ops laws s t.0 in
        let p_pos : 0 < pos_part (value per_pack) = not-le-zero ops laws per_pack t.1 in
        let bound : (m : ℕ)
            → (pos 0 ≤ℤ value (ops.div s per_pack))
              × ((value (ops.div s per_pack) ≤ℤ pos (m * unit))
                  ↔ (pos_part (value s) ≤ m * pos_part (value per_pack))) =
          λ m.
            laws.div_bound s per_pack m shortage-Within
              (Within-mono n range per_pack (omega (arith, stock.small)) stock.per_pack_within)
              s_pos p_pos in
        let (ka, ea, la) = laws.ceil_least (ops.div s per_pack) (bound 0).0 in
        let (kb, eb, lb) = laws.ceil_least minimum stock.minimum_sign in
        let k : ℕ = max (max ka kb) 1 in
        let same : pos_part (value s) ≡ pos_part shortage = ap pos_part shortage_exact in
        (
          k,
          ap value t.2
              ∙ max-whole ops laws _ _ (max ka kb) 1 (max-whole ops laws _ _ ka kb ea eb)
                  (value-whole 1),
          (
            omega arith,
            subst (λ x. x ≤ k * pos_part (value per_pack)) same
                ((bound k).1.0 ((la k).1 (omega arith))),
            (lb k).1 (omega arith),
            λ m one covers meets.
                max-least ka kb m one
                  ((la m).0 (
                    (bound m).1.1
                      (subst (λ x. x ≤ m * pos_part (value per_pack)) (sym same) covers)))
                  ((lb m).0 meets),
          ),
        )

    -- Nothing is ordered exactly when nothing is lacking or the packs hold nothing.
    pub packs_none :
        (packs_to_order ops current par target on_order per_pack minimum ≡ none)
        ↔ ((shortage ≤ℤ pos 0) ⊎ (value per_pack ≤ℤ pos 0))
    unfolding packs_to_order
    packs_none = (
      λ h. elim (Bool-cases (le ops s (whole 0))) [
        | inl e ↦ inl (subst (λ x. x ≤ℤ pos 0) shortage_exact (le-zero ops laws s e))
        | inr e ↦
            inr (
              le-zero ops laws per_pack (unfold shortage_of packs_to_order in ground (arith, e, h)))
      ],
      λ c. elim (Bool-cases (le ops s (whole 0))) [
        | inl e ↦ unfold shortage_of packs_to_order in ground (arith, e)
        | inr e ↦ unfold shortage_of packs_to_order in ground (arith, e, not_both c e)
      ],
    )
      where
        s : Decimal
        s = shortage_of current par target on_order

        not_both :
            (shortage ≤ℤ pos 0) ⊎ (value per_pack ≤ℤ pos 0)
            → le ops s (whole 0) ≡ false
            → le ops per_pack (whole 0) ≡ true
        not_both c e = elim (Bool-cases (le ops per_pack (whole 0))) [
          | inl yes_le ↦ yes_le
          | inr f ↦ elim c [
            | inl lacks_nothing ↦ absurd (
                more-than-zero ops laws s e
                  (subst (λ x. x ≤ℤ pos 0) (sym shortage_exact) lacks_nothing))
            | inr empty ↦ absurd (more-than-zero ops laws per_pack f empty)
          ]
        ]
