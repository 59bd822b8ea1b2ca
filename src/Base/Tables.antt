-- ===== src/Base/Tables.antt =====
-- A database table as a list of rows, and the SQL statements that the queries are written with.
-- A row test stands for a WHERE clause, a row function for the SET list of an UPDATE.
use Prim.Native.Nat.{ℕ, ◌+◌}
use mathlib.Core.Path.{◌≡◌, refl, sym, ap, subst, ◌∙◌}
use mathlib.Core.Bool.{Bool, true, false, ◌||◌}
use mathlib.Core.Logic.{◌⊎◌, inl, inr}
use mathlib.Core.Option.{Option, none, some}
use mathlib.Core.List.{List, [], ◌∷◌, ◌++◌, Memᴰ}
use native.Mathlib.Omega.{arith}
use backhaus_ai_backend.Base.Tests.{if◌then◌else◌, Bool-cases}
use backhaus_ai_backend.Base.Lists.{All, All-append}

module _ {ℓ} {A : Type ℓ} where
  -- SELECT … WHERE p, for at most one row
  abbrev pub find_row : (A → Bool) → List A → Option A
  find_row p [] = none
  find_row p (x ∷ xs) = if p x then some x else find_row p xs

  -- SELECT EXISTS(… WHERE p)
  abbrev pub any_row : (A → Bool) → List A → Bool
  any_row p [] = false
  any_row p (x ∷ xs) = p x || any_row p xs

  -- SELECT COUNT(*) … WHERE p, and `rows_affected()` of an UPDATE
  abbrev pub count_rows : (A → Bool) → List A → ℕ
  count_rows p [] = 0
  count_rows p (x ∷ xs) = (if p x then 1 else 0) + count_rows p xs

  -- SELECT * … WHERE p
  abbrev pub rows_where : (A → Bool) → List A → List A
  rows_where p [] = []
  rows_where p (x ∷ xs) = let rest = rows_where p xs in if p x then x ∷ rest else rest

  -- UPDATE … SET f WHERE p
  abbrev pub update_rows : (A → Bool) → (A → A) → List A → List A
  update_rows p f [] = []
  update_rows p f (x ∷ xs) = (if p x then f x else x) ∷ update_rows p f xs

  -- DELETE … WHERE p
  abbrev pub delete_rows : (A → Bool) → List A → List A
  delete_rows p [] = []
  delete_rows p (x ∷ xs) = let rest = delete_rows p xs in if p x then rest else x ∷ rest

  -- A table in which no two rows stand in the relation's complement: a UNIQUE constraint.
  abbrev pub Pairs {κ} : (A → A → Type κ) → List A → Type κ
  Pairs R [] = Unit
  Pairs R (x ∷ xs) = All (R x) xs × Pairs R xs

module _ {ℓ} {A : Type ℓ} where
  pub find_row_sound : (p : A → Bool) (xs : List A) {a : A} → find_row p xs ≡ some a → p a ≡ true
  find_row_sound p [] h = cc
  find_row_sound p (x ∷ xs) h = elim (Bool-cases (p x)) [
    | inl e ↦ ground (arith, e)
    | inr e ↦ find_row_sound p xs (ground (arith, e))
  ]

  -- A statement whose test fails on every row changes nothing.
  pub update_rows-none :
      (p : A → Bool) (f : A → A) (xs : List A) → any_row p xs ≡ false → update_rows p f xs ≡ xs
  update_rows-none p f [] h = refl
  update_rows-none p f (x ∷ xs) h = ground (arith, update_rows-none p f xs)

  pub All-update_rows {κ} :
      (P : A → Type κ) (p : A → Bool) (f : A → A) (xs : List A)
      → ((a : A) → Memᴰ a xs → p a ≡ true → P a → P (f a))
      → All P xs
      → All P (update_rows p f xs)
  All-update_rows P p f [] k h = h
  All-update_rows P p f (x ∷ xs) k h = elim (Bool-cases (p x)) [
    | inl e ↦
        rw e (k x (Memᴰ.head refl) e h.0, All-update_rows P p f xs (λ a m. k a (Memᴰ.tail m)) h.1)
    | inr e ↦ rw e (h.0, All-update_rows P p f xs (λ a m. k a (Memᴰ.tail m)) h.1)
  ]

  -- What holds of a table after a statement, from what held of each row before.
  pub All-changed {κ μ} :
      (R : A → Type κ) (S : A → Type μ) (p : A → Bool) (f : A → A) (xs : List A)
      → ((a : A) → Memᴰ a xs → R a → S (if p a then f a else a))
      → All R xs
      → All S (update_rows p f xs)
  All-changed R S p f [] k h = tt
  All-changed R S p f (x ∷ xs) k h =
      (k x (Memᴰ.head refl) h.0, All-changed R S p f xs (λ a m. k a (Memᴰ.tail m)) h.1)

  -- A constraint on pairs of rows is kept by a statement that keeps it for each two rows.
  pub Pairs-update_rows {κ} :
      (R : A → A → Type κ) (p : A → Bool) (f : A → A) (xs : List A)
      → ((a b : A)
          → Memᴰ a xs
          → Memᴰ b xs
          → R a b
          → R (if p a then f a else a) (if p b then f b else b))
      → Pairs R xs
      → Pairs R (update_rows p f xs)
  Pairs-update_rows R p f [] k h = h
  Pairs-update_rows R p f (x ∷ xs) k h = (
    All-changed (R x) (R (if p x then f x else x)) p f xs
        (λ b m. k x b (Memᴰ.head refl) (Memᴰ.tail m)) h.0,
    Pairs-update_rows R p f xs (λ a b m n. k a b (Memᴰ.tail m) (Memᴰ.tail n)) h.1,
  )

  pub All-delete_rows {κ} :
      (P : A → Type κ) (p : A → Bool) (xs : List A) → All P xs → All P (delete_rows p xs)
  All-delete_rows P p [] h = h
  All-delete_rows P p (x ∷ xs) h = elim (Bool-cases (p x)) [
    | inl e ↦ rw e (All-delete_rows P p xs h.1)
    | inr e ↦ rw e (h.0, All-delete_rows P p xs h.1)
  ]

module _ {ℓ} {A : Type ℓ} where
  pub All-of_any_row :
      (p : A → Bool) (xs : List A) → any_row p xs ≡ false → All (λ a. p a ≡ false) xs
  All-of_any_row p [] h = tt
  All-of_any_row p (x ∷ xs) h = (ground arith, All-of_any_row p xs (ground arith))

  -- A statement leaves a row alone that its test refuses.
  pub mem-update_rows :
      {a : A} (p : A → Bool) (f : A → A) (xs : List A)
      → p a ≡ false
      → Memᴰ a xs
      → Memᴰ a (update_rows p f xs)
  mem-update_rows p f [] e h = h
  mem-update_rows p f (x ∷ xs) e (Memᴰ.head q) = Memᴰ.head (ground (arith, ap p q))
  mem-update_rows p f (x ∷ xs) e (Memᴰ.tail h) = Memᴰ.tail (mem-update_rows p f xs e h)

  pub mem-update_rows_hit :
      {a : A} (p : A → Bool) (f : A → A) (xs : List A)
      → p a ≡ true
      → Memᴰ a xs
      → Memᴰ (f a) (update_rows p f xs)
  mem-update_rows_hit p f [] e h = elim h [ ]
  mem-update_rows_hit p f (x ∷ xs) e (Memᴰ.head q) = Memᴰ.head (ground (arith, ap p q, ap f q))
  mem-update_rows_hit p f (x ∷ xs) e (Memᴰ.tail h) = Memᴰ.tail (mem-update_rows_hit p f xs e h)

  pub find_row-mem : (p : A → Bool) (xs : List A) {a : A} → find_row p xs ≡ some a → Memᴰ a xs
  find_row-mem p [] h = cc
  find_row-mem p (x ∷ xs) {a = a} h = elim (Bool-cases (p x)) [
    | inl e ↦ Memᴰ.head (ground (arith, e))
    | inr e ↦ Memᴰ.tail (find_row-mem p xs (ground (arith, e)))
  ]

  pub All-mem {κ} : (P : A → Type κ) (xs : List A) {a : A} → All P xs → Memᴰ a xs → P a
  All-mem P [] h m = elim m [ ]
  All-mem P (x ∷ xs) h (Memᴰ.head e) = subst P (sym e) h.0
  All-mem P (x ∷ xs) h (Memᴰ.tail k) = All-mem P xs h.1 k

  -- Two rows of a table are the same or stand in the relation, one way round.
  pub Pairs-mem {κ} :
      (R : A → A → Type κ) (xs : List A) {a b : A}
      → Pairs R xs
      → Memᴰ a xs
      → Memᴰ b xs
      → (a ≡ b) ⊎ (R a b) ⊎ (R b a)
  Pairs-mem R [] h m k = elim m [ ]
  Pairs-mem R (x ∷ xs) h (Memᴰ.head e) (Memᴰ.head f) = inl (e ∙ sym f)
  Pairs-mem R (x ∷ xs) {b = b} h (Memᴰ.head e) (Memᴰ.tail k) =
      inr (inl (subst (λ y. R y b) (sym e) (All-mem (R x) xs h.0 k)))
  Pairs-mem R (x ∷ xs) {a = a} h (Memᴰ.tail m) (Memᴰ.head f) =
      inr (inr (subst (λ y. R y a) (sym f) (All-mem (R x) xs h.0 m)))
  Pairs-mem R (x ∷ xs) h (Memᴰ.tail m) (Memᴰ.tail k) = Pairs-mem R xs h.1 m k

  pub any_row-mem :
      (p : A → Bool) (xs : List A) {a : A} → any_row p xs ≡ false → Memᴰ a xs → p a ≡ false
  any_row-mem p xs e m = All-mem (λ a. p a ≡ false) xs (All-of_any_row p xs e) m

  pub All-mono {κ μ} :
      (P : A → Type κ) (Q : A → Type μ) (xs : List A) → ((a : A) → P a → Q a) → All P xs → All Q xs
  All-mono P Q [] k h = tt
  All-mono P Q (x ∷ xs) k h = (k x h.0, All-mono P Q xs k h.1)

  -- A new row goes in where it clashes with no row of the table.
  pub Pairs-append {κ} :
      (R : A → A → Type κ) (xs : List A) (y : A)
      → Pairs R xs
      → All (λ x. R x y) xs
      → Pairs R (xs ++ y ∷ [])
  Pairs-append R [] y h k = (tt, tt)
  Pairs-append R (x ∷ xs) y h k =
      (All-append (R x) xs (y ∷ []) h.0 (k.0, tt), Pairs-append R xs y h.1 k.1)

module _ {ℓ} {A : Type ℓ} where
  pub any_row_of_find_row :
      (p : A → Bool) (xs : List A) → find_row p xs ≡ none → any_row p xs ≡ false
  any_row_of_find_row p [] h = refl
  any_row_of_find_row p (x ∷ xs) h = elim (Bool-cases (p x)) [
    | inl e ↦ ground (arith, e)
    | inr e ↦ rw e (any_row_of_find_row p xs (ground (arith, e)))
  ]

  pub any_row-update_rows-false :
      (q p : A → Bool) (f : A → A) (xs : List A)
      → ((a : A) → p a ≡ true → q (f a) ≡ false)
      → ((a : A) → p a ≡ false → q a ≡ false)
      → any_row q (update_rows p f xs) ≡ false
  any_row-update_rows-false q p f [] h k = refl
  any_row-update_rows-false q p f (x ∷ xs) h k = elim (Bool-cases (p x)) [
    | inl e ↦ ground (arith, e, h x e, any_row-update_rows-false q p f xs h k)
    | inr e ↦ ground (arith, e, k x e, any_row-update_rows-false q p f xs h k)
  ]

  pub count_rows-none : (p : A → Bool) (xs : List A) → any_row p xs ≡ false → count_rows p xs ≡ 0
  count_rows-none p [] h = refl
  count_rows-none p (x ∷ xs) h = ground (arith, count_rows-none p xs)

  pub any_row_of_mem :
      (p : A → Bool) (xs : List A) {a : A} → Memᴰ a xs → p a ≡ true → any_row p xs ≡ true
  any_row_of_mem p [] m h = elim m [ ]
  any_row_of_mem p (x ∷ xs) (Memᴰ.head e) h = ground (arith, ap p e)
  any_row_of_mem p (x ∷ xs) (Memᴰ.tail m) h = ground (arith, any_row_of_mem p xs m h)

  pub find_row-append :
      (p : A → Bool) (xs : List A) (y : A)
      → find_row p xs ≡ none
      → p y ≡ true
      → find_row p (xs ++ y ∷ []) ≡ some y
  find_row-append p [] y h k = ground arith
  find_row-append p (x ∷ xs) y h k = elim (Bool-cases (p x)) [
    | inl e ↦ absurd (ground (arith, e))
    | inr e ↦ rw e (find_row-append p xs y (ground (arith, e)) k)
  ]
