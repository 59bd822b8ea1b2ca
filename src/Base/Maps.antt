-- ===== src/Base/Maps.antt =====
-- Rust's `BTreeMap` as a list of entries in the order of their keys: `entry` finds a key by a test and
-- puts a new one before the first entry that comes after it.
use mathlib.Core.Bool.{Bool}
use mathlib.Core.List.{List, [], ◌∷◌}
use backhaus_ai_backend.Base.Tests.{if◌then◌else◌}
use backhaus_ai_backend.Base.Tables.{any_row, update_rows}

module _ {ℓ} {A : Type ℓ} where
  -- Before the first entry that comes after it.
  abbrev pub insert_before : (A → A → Bool) → A → List A → List A
  insert_before less y [] = y ∷ []
  insert_before less y (x ∷ xs) =
      let rest = insert_before less y xs in if less y x then y ∷ x ∷ xs else x ∷ rest

  -- `entry(k)`: a change to the entry of the key, or a new entry.
  abbrev pub entry : (A → A → Bool) → (A → Bool) → (A → A) → A → List A → List A
  entry less is f new xs = if any_row is xs then update_rows is f xs else insert_before less new xs
