-- ===== src/Queue/First.antt =====
-- The row that ORDER BY … LIMIT 1 picks for a claim.
use backhaus_ai_backend.Base.{
  ◌≡◌, sym, subst, Bool, true, false, List, [], ◌∷◌, arith, inl, inr, ◌⊎◌, none, some, Option-cases,
  Memᴰ,
}
use backhaus_ai_backend.Store.{RunRow}
use backhaus_ai_backend.Jobs.Claim.{first_by, precedes}

first_by-cons :
    (p : RunRow → Bool) (x : RunRow) (rs : List RunRow) {r : RunRow}
    → first_by p (x ∷ rs) ≡ some r
    → ((p x ≡ true) × (r ≡ x)) ⊎ (first_by p rs ≡ some r)
unfolding first_by
first_by-cons p x rs h = ground arith

pub first_by-mem :
    (p : RunRow → Bool) (rs : List RunRow) {r : RunRow} → first_by p rs ≡ some r → Memᴰ r rs
first_by-mem p [] h = unfold first_by in cc h
first_by-mem p (x ∷ rs) h = elim (first_by-cons p x rs h) [
  | inl (_, e) ↦ Memᴰ.head e
  | inr k ↦ Memᴰ.tail (first_by-mem p rs k)
]

pub first_by-holds :
    (p : RunRow → Bool) (rs : List RunRow) {r : RunRow} → first_by p rs ≡ some r → p r ≡ true
first_by-holds p [] h = unfold first_by in cc h
first_by-holds p (x ∷ rs) h = elim (first_by-cons p x rs h) [
  | inl (t, e) ↦ subst (λ y. p y ≡ true) (sym e) t
  | inr k ↦ first_by-holds p rs k
]

precedes_trans : (a b c : RunRow) → precedes a b ≡ true → precedes b c ≡ true → precedes a c ≡ true
unfolding precedes
precedes_trans a b c h k = ground arith

precedes-total : (a b : RunRow) → precedes a b ≡ false → precedes b a ≡ true
unfolding precedes
precedes-total a b h = ground arith

precedes_refl : (a : RunRow) → precedes a a ≡ true
unfolding precedes
precedes_refl a = ground arith

-- No row is picked only where none is admitted.
pub first_by-none :
    (p : RunRow → Bool) (rs : List RunRow) {a : RunRow}
    → first_by p rs ≡ none
    → Memᴰ a rs
    → p a ≡ false
unfolding first_by
first_by-none p [] h m = elim m [ ]
first_by-none p (x ∷ rs) h (Memᴰ.head e) = subst (λ y. p y ≡ false) (sym e) (ground arith)
first_by-none p (x ∷ rs) h (Memᴰ.tail m) = first_by-none p rs (ground arith) m

-- The picked row comes before every admitted row.
pub first_by-least :
    (p : RunRow → Bool) (rs : List RunRow) {r a : RunRow}
    → first_by p rs ≡ some r
    → Memᴰ a rs
    → p a ≡ true
    → precedes r a ≡ true
unfolding first_by
first_by-least p [] h m k = elim m [ ]
first_by-least p (x ∷ rs) {r = r} h (Memᴰ.head e) k = elim (Option-cases (first_by p rs)) [
  | inl n ↦
      subst (λ y. precedes r y ≡ true) (sym e)
        (ground (arith, n, precedes_refl x, subst (λ y. p y ≡ true) e k))
  | inr (s, f) ↦
      subst (λ y. precedes r y ≡ true) (sym e)
        (ground (arith, f, precedes_refl x, precedes-total x s, subst (λ y. p y ≡ true) e k))
]
first_by-least p (x ∷ rs) {r = r} {a = a} h (Memᴰ.tail m) k = elim (Option-cases (first_by p rs)) [
  | inl n ↦ ground (arith, first_by-none p rs n m)
  | inr (s, f) ↦ ground (arith, f, first_by-least p rs f m k, precedes_trans x s a)
]
