-- ===== src/Conversations/History.antt =====
-- The history that a model is given: `bounded_history`.
use Prim.Native.String.{len}
use backhaus_ai_backend.Base.{
  ℕ, suc, ◌+◌, ◌≤◌, ◌<◌, ◌≡◌, ◌⊎◌, refl, ap, inl, inr, List, [], ◌∷◌, String, length, take, reverse,
  arith, ltb, Bool-cases,
}
use backhaus_ai_backend.Conversations.{select, bounded_history}

-- The bytes of a list of exchanges.
abbrev pub total : List (String × String) → ℕ
total [] = 0
total ((user, answer) ∷ rows) = len user + len answer + total rows

-- What is selected of the exchanges: as many of the newest as the budget of bytes holds.
abbrev pub IsSelected : ℕ → List (String × String) → List (String × String) → Type 0
IsSelected bytes rows chosen =
    (n : ℕ) × (chosen ≡ take n rows)
    × (n ≤ length rows)
    × (bytes + total (take n rows) ≤ 12000)
    × ((n ≡ length rows) ⊎ (12000 < bytes + total (take (suc n) rows)))

select-IsSelected :
    (bytes : ℕ) (rows : List (String × String))
    → bytes ≤ 12000
    → IsSelected bytes rows (select bytes rows)
unfolding select
select-IsSelected bytes [] h = (0, refl, omega arith, omega arith, inl refl)
select-IsSelected bytes ((user, answer) ∷ rows) h =
    elim (Bool-cases (ltb 12000 (bytes + (len user + len answer)))) [
      | inl over ↦ (0, rw over refl, omega arith, omega arith, inr (ground (arith, over)))
      | inr fits ↦
          let (n, e, small, within, most) =
            select-IsSelected (bytes + (len user + len answer)) rows (ground (arith, fits)) in
          (
            suc n,
            rw fits (ap (λ xs. (user, answer) ∷ xs) e),
            omega (arith, small),
            omega (arith, within),
            elim most [ inl all_of ↦ inl (ap suc all_of) | inr over ↦ inr (omega (arith, over)) ],
          )
    ]

-- The history is the newest exchanges, oldest first: as many of the last four as twelve thousand
-- bytes hold, and no fewer.
pub bounded_history-IsSelected :
    (rows : List (String × String))
    → (chosen : List (String × String)) × (bounded_history rows ≡ reverse chosen)
      × IsSelected 0 (take 4 rows) chosen
unfolding bounded_history
bounded_history-IsSelected rows =
    (select 0 (take 4 rows), refl, select-IsSelected 0 (take 4 rows) (omega arith))
