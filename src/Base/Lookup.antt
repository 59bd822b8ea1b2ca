-- ===== src/Base/Lookup.antt =====
-- What a lookup finds after a statement has changed the table.
use mathlib.Core.Path.{◌≡◌, refl}
use mathlib.Core.Bool.{Bool, true, false, ◌||◌}
use mathlib.Core.Logic.{inl, inr}
use mathlib.Core.Option.{none, some}
use mathlib.Core.List.{List, [], ◌∷◌, ◌++◌, Memᴰ}
use native.Mathlib.Omega.{arith}
use backhaus_ai_backend.Base.Tests.{if◌then◌else◌, Bool-cases}
use backhaus_ai_backend.Base.Tables.{
  find_row, any_row, update_rows, delete_rows, Pairs, All-delete_rows,
}
use backhaus_ai_backend.Base.Lists.{All}

module _ {ℓ} {A : Type ℓ} where
  -- A statement that keeps the columns of the lookup changes the row that is found in place.
  pub find_row-update_rows :
      (p q : A → Bool) (f : A → A) (xs : List A) {a : A}
      → ((b : A) → p (f b) ≡ p b)
      → find_row p xs ≡ some a
      → find_row p (update_rows q f xs) ≡ some (if q a then f a else a)
  find_row-update_rows p q f [] k h = cc
  find_row-update_rows p q f (x ∷ xs) {a = a} k h = elim (Bool-cases (p x)) [
    | inl e ↦ elim (Bool-cases (q x)) [
      | inl t ↦ ground (arith, e, t, k x)
      | inr t ↦ ground (arith, e, t)
    ]
    | inr e ↦ elim (Bool-cases (q x)) [
      | inl t ↦
          ground (arith, e, t, k x, find_row-update_rows p q f xs {a = a} k (ground (arith, e)))
      | inr t ↦ ground (arith, e, t, find_row-update_rows p q f xs {a = a} k (ground (arith, e)))
    ]
  ]

  -- Nothing is found where nothing was found.
  pub find_row-update_rows-none :
      (p q : A → Bool) (f : A → A) (xs : List A)
      → ((b : A) → p (f b) ≡ p b)
      → find_row p xs ≡ none
      → find_row p (update_rows q f xs) ≡ none
  find_row-update_rows-none p q f [] k h = refl
  find_row-update_rows-none p q f (x ∷ xs) k h = elim (Bool-cases (p x)) [
    | inl e ↦ absurd (ground (arith, e))
    | inr e ↦ elim (Bool-cases (q x)) [
      | inl t ↦ ground (arith, e, t, k x, find_row-update_rows-none p q f xs k (ground (arith, e)))
      | inr t ↦ ground (arith, e, t, find_row-update_rows-none p q f xs k (ground (arith, e)))
    ]
  ]

  pub find_row-append_found :
      (p : A → Bool) (xs ys : List A) {a : A}
      → find_row p xs ≡ some a
      → find_row p (xs ++ ys) ≡ some a
  find_row-append_found p [] ys h = cc
  find_row-append_found p (x ∷ xs) ys h = elim (Bool-cases (p x)) [
    | inl e ↦ ground (arith, e)
    | inr e ↦ rw e (find_row-append_found p xs ys (ground (arith, e)))
  ]

  pub All-of_mem {κ} : {P : A → Type κ} (xs : List A) → ((a : A) → Memᴰ a xs → P a) → All P xs
  All-of_mem [] k = tt
  All-of_mem (x ∷ xs) k = (k x (Memᴰ.head refl), All-of_mem xs (λ a m. k a (Memᴰ.tail m)))

  pub Pairs-delete_rows {κ} :
      (R : A → A → Type κ) (p : A → Bool) (xs : List A) → Pairs R xs → Pairs R (delete_rows p xs)
  Pairs-delete_rows R p [] h = h
  Pairs-delete_rows R p (x ∷ xs) h = elim (Bool-cases (p x)) [
    | inl e ↦ rw e (Pairs-delete_rows R p xs h.1)
    | inr e ↦ rw e (All-delete_rows (R x) p xs h.0, Pairs-delete_rows R p xs h.1)
  ]

  -- A row that a test of deletion refuses stays.
  pub any_row-delete_rows :
      (p q : A → Bool) (xs : List A)
      → ((a : A) → p a ≡ true → q a ≡ false)
      → any_row p xs ≡ true
      → any_row p (delete_rows q xs) ≡ true
  any_row-delete_rows p q [] k h = h
  any_row-delete_rows p q (x ∷ xs) k h = elim (Bool-cases (q x)) [
    | inl e ↦ elim (Bool-cases (p x)) [
      | inl t ↦ absurd (ground (arith, k x t))
      | inr t ↦ rw e (any_row-delete_rows p q xs k (ground arith))
    ]
    | inr e ↦ elim (Bool-cases (p x)) [
      | inl t ↦ ground (arith, e, t)
      | inr t ↦ rw (e, t) (any_row-delete_rows p q xs k (ground arith))
    ]
  ]

  pub All-deleted {κ} :
      (P : A → Type κ) (q : A → Bool) (xs : List A)
      → All P xs
      → All (λ a. P a × (q a ≡ false)) (delete_rows q xs)
  All-deleted P q [] h = tt
  All-deleted P q (x ∷ xs) h = elim (Bool-cases (q x)) [
    | inl e ↦ rw e (All-deleted P q xs h.1)
    | inr e ↦ rw e ((h.0, e), All-deleted P q xs h.1)
  ]

  -- A statement that keeps the columns of a test keeps its answer.
  pub any_row-update_rows :
      (p q : A → Bool) (f : A → A) (xs : List A)
      → ((a : A) → p (f a) ≡ p a)
      → any_row p (update_rows q f xs) ≡ any_row p xs
  any_row-update_rows p q f [] k = refl
  any_row-update_rows p q f (x ∷ xs) k = elim (Bool-cases (q x)) [
    | inl e ↦ rw (e, k x, any_row-update_rows p q f xs k) refl
    | inr e ↦ rw (e, any_row-update_rows p q f xs k) refl
  ]

  pub All_of_none : (p : A → Bool) (xs : List A) → All (λ a. p a ≡ false) xs → any_row p xs ≡ false
  All_of_none p [] h = refl
  All_of_none p (x ∷ xs) h = ground (arith, All_of_none p xs h.1)

  pub any_row-append :
      (p : A → Bool) (xs ys : List A) → any_row p (xs ++ ys) ≡ (any_row p xs || any_row p ys)
  any_row-append p [] ys = refl
  any_row-append p (x ∷ xs) ys = ground (arith, any_row-append p xs ys)

  pub any_row_mono :
      (p q : A → Bool) (xs : List A)
      → ((a : A) → p a ≡ true → q a ≡ true)
      → any_row p xs ≡ true
      → any_row q xs ≡ true
  any_row_mono p q [] k h = h
  any_row_mono p q (x ∷ xs) k h = elim (Bool-cases (p x)) [
    | inl e ↦ ground (arith, k x e)
    | inr e ↦ ground (arith, any_row_mono p q xs k (ground (arith, e)))
  ]

  pub mem-append : {a : A} (xs ys : List A) → Memᴰ a xs → Memᴰ a (xs ++ ys)
  mem-append [] ys m = elim m [ ]
  mem-append (x ∷ xs) ys (Memᴰ.head e) = Memᴰ.head e
  mem-append (x ∷ xs) ys (Memᴰ.tail m) = Memᴰ.tail (mem-append xs ys m)
