-- ===== src/Base/Entries.antt =====
-- Lemmas on the maps of `Maps`.
use mathlib.Core.Path.{◌≡◌, refl, ◌∙◌}
use mathlib.Core.Bool.{Bool, true, false, ◌||◌}
use mathlib.Core.Logic.{inl, inr}
use mathlib.Core.List.{List, [], ◌∷◌}
use native.Mathlib.Omega.{arith}
use backhaus_ai_backend.Base.Tests.{if◌then◌else◌, Bool-cases}
use backhaus_ai_backend.Base.Lists.{All}
use backhaus_ai_backend.Base.Tables.{
  any_row, update_rows, rows_where, Pairs, All-update_rows, Pairs-update_rows, All-of_any_row,
  All-mono,
}
use backhaus_ai_backend.Base.Maps.{insert_before, entry}

module _ {ℓ} {A : Type ℓ} (less : A → A → Bool) where
  pub All-insert_before {κ} :
      (P : A → Type κ) (y : A) (xs : List A) → P y → All P xs → All P (insert_before less y xs)
  All-insert_before P y [] h k = (h, tt)
  All-insert_before P y (x ∷ xs) h k = elim (Bool-cases (less y x)) [
    | inl e ↦ rw e (h, k)
    | inr e ↦ rw e (k.0, All-insert_before P y xs h k.1)
  ]

  pub any_row-insert_before :
      (p : A → Bool) (y : A) (xs : List A)
      → any_row p (insert_before less y xs) ≡ (p y || any_row p xs)
  any_row-insert_before p y [] = refl
  any_row-insert_before p y (x ∷ xs) = elim (Bool-cases (less y x)) [
    | inl e ↦ rw e refl
    | inr e ↦ rw e (ground (arith, any_row-insert_before p y xs))
  ]

  -- For a relation that holds both ways between the new entry and the others.
  pub Pairs-insert_before {κ} :
      (R : A → A → Type κ) (y : A) (xs : List A)
      → All (R y) xs
      → All (λ x. R x y) xs
      → Pairs R xs
      → Pairs R (insert_before less y xs)
  Pairs-insert_before R y [] a b h = (tt, tt)
  Pairs-insert_before R y (x ∷ xs) a b h = elim (Bool-cases (less y x)) [
    | inl e ↦ rw e (a, h)
    | inr e ↦ rw e (All-insert_before (R x) y xs b.0 h.0, Pairs-insert_before R y xs a.1 b.1 h.1)
  ]

module _ {ℓ} {A : Type ℓ} where
  any_row-update_hit :
      (p q : A → Bool) (f : A → A) (xs : List A)
      → ((a : A) → q a ≡ true → p (f a) ≡ true)
      → any_row q xs ≡ true
      → any_row p (update_rows q f xs) ≡ true
  any_row-update_hit p q f [] k h = h
  any_row-update_hit p q f (x ∷ xs) k h = elim (Bool-cases (q x)) [
    | inl e ↦ ground (arith, e, k x e)
    | inr e ↦ ground (arith, e, any_row-update_hit p q f xs k (ground (arith, e)))
  ]

  any_row-update_old :
      (p q : A → Bool) (f : A → A) (xs : List A)
      → ((a : A) → p a ≡ true → q a ≡ false)
      → any_row p xs ≡ true
      → any_row p (update_rows q f xs) ≡ true
  any_row-update_old p q f [] k h = h
  any_row-update_old p q f (x ∷ xs) k h = elim (Bool-cases (p x)) [
    | inl e ↦ ground (arith, e, k x e)
    | inr e ↦ ground (arith, e, any_row-update_old p q f xs k (ground (arith, e)))
  ]

  -- What a filter keeps of a constraint on all rows, and of one on pairs.
  pub All-rows_where {κ μ} :
      (P : A → Type κ) (Q : A → Type μ) (p : A → Bool) (xs : List A)
      → ((a : A) → p a ≡ true → P a → Q a)
      → All P xs
      → All Q (rows_where p xs)
  All-rows_where P Q p [] k h = tt
  All-rows_where P Q p (x ∷ xs) k h = elim (Bool-cases (p x)) [
    | inl e ↦ rw e (k x e h.0, All-rows_where P Q p xs k h.1)
    | inr e ↦ rw e (All-rows_where P Q p xs k h.1)
  ]

  pub Pairs-rows_where {κ μ} :
      (R : A → A → Type κ) (S : A → A → Type μ) (p : A → Bool) (xs : List A)
      → ((a b : A) → p a ≡ true → p b ≡ true → R a b → S a b)
      → Pairs R xs
      → Pairs S (rows_where p xs)
  Pairs-rows_where R S p [] k h = tt
  Pairs-rows_where R S p (x ∷ xs) k h = elim (Bool-cases (p x)) [
    | inl e ↦ rw e (
      All-rows_where (R x) (S x) p xs (λ b t r. k x b e t r) h.0,
      Pairs-rows_where R S p xs k h.1,
    )
    | inr e ↦ rw e (Pairs-rows_where R S p xs k h.1)
  ]

  pub All-of_rows_where {κ} :
      (P : A → Type κ) (p : A → Bool) (xs : List A)
      → All P (rows_where p xs)
      → All (λ a. p a ≡ true → P a) xs
  All-of_rows_where P p [] h = tt
  All-of_rows_where P p (x ∷ xs) h = elim (Bool-cases (p x)) [
    | inl e ↦
        let k : All P (x ∷ rows_where p xs) = ground (arith, h, e) in
        (λ _. k.0, All-of_rows_where P p xs k.1)
    | inr e ↦
        let k : All P (rows_where p xs) = ground (arith, h, e) in
        (λ t. absurd (ground (arith, t, e)), All-of_rows_where P p xs k)
  ]

-- `entry`, for a key that the test `is` finds.
module _ {ℓ} {A : Type ℓ} (less : A → A → Bool) (is : A → Bool) (f : A → A) (new : A)
    (xs : List A) where
  pub All-entry {κ} :
      (P : A → Type κ)
      → P new
      → ((a : A) → P a → P (f a))
      → All P xs
      → All P (entry less is f new xs)
  All-entry P n k h = elim (Bool-cases (any_row is xs)) [
    | inl e ↦ rw e (All-update_rows P is f xs (λ a _ _ q. k a q) h)
    | inr e ↦ rw e (All-insert_before less P new xs n h)
  ]

  pub Pairs-entry {κ} :
      (R : A → A → Type κ)
      → ((a : A) → is a ≡ false → R new a × R a new)
      → ((a b : A) → R a b → R (if is a then f a else a) (if is b then f b else b))
      → Pairs R xs
      → Pairs R (entry less is f new xs)
  Pairs-entry R n k h = elim (Bool-cases (any_row is xs)) [
    | inl e ↦ rw e (Pairs-update_rows R is f xs (λ a b _ _ q. k a b q) h)
    | inr e ↦ rw e (
        Pairs-insert_before less R new xs
          (All-mono _ _ xs (λ a t. (n a t).0) (All-of_any_row is xs e))
          (All-mono _ _ xs (λ a t. (n a t).1) (All-of_any_row is xs e)) h)
  ]

  pub any_row-entry-new :
      (p : A → Bool)
      → p new ≡ true
      → ((a : A) → is a ≡ true → p (f a) ≡ true)
      → any_row p (entry less is f new xs) ≡ true
  any_row-entry-new p n k = elim (Bool-cases (any_row is xs)) [
    | inl e ↦ rw e (any_row-update_hit p is f xs k e)
    | inr e ↦ rw e (any_row-insert_before less p new xs ∙ ground (arith, n))
  ]

  pub any_row-entry_old :
      (p : A → Bool)
      → ((a : A) → p a ≡ true → is a ≡ false)
      → any_row p xs ≡ true
      → any_row p (entry less is f new xs) ≡ true
  any_row-entry_old p k h = elim (Bool-cases (any_row is xs)) [
    | inl e ↦ rw e (any_row-update_old p is f xs k h)
    | inr e ↦ rw e (any_row-insert_before less p new xs ∙ ground (arith, h))
  ]
