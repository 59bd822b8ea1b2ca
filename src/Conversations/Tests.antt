-- ===== src/Conversations/Tests.antt =====
-- The theorem on the history at a concrete input.
use backhaus_ai_backend.Base.{◌≡◌, refl, List, [], ◌∷◌, String, reverse, take}
use backhaus_ai_backend.Conversations.{bounded_history, select}
use backhaus_ai_backend.Conversations.History.{IsSelected, bounded_history-IsSelected}

abbrev talk : List (String × String)
talk = ("e", "5") ∷ ("d", "4") ∷ ("c", "3") ∷ ("b", "2") ∷ ("a", "1") ∷ []

oldest_first : bounded_history talk ≡ ("b", "2") ∷ ("c", "3") ∷ ("d", "4") ∷ ("e", "5") ∷ []
unfolding bounded_history select
oldest_first = refl

bounded_history-IsSelected_example :
    (chosen : List (String × String)) × (bounded_history talk ≡ reverse chosen)
    × IsSelected 0 (take 4 talk) chosen
bounded_history-IsSelected_example = bounded_history-IsSelected talk
