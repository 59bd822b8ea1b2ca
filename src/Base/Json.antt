-- ===== src/Base/Json.antt =====
-- JSON values (`serde_json::Value`), compared by structure. A number is held in its printed form,
-- and an object's fields stand in one fixed order.
use Prim.Native.String.{String}
use mathlib.Core.Path.{◌≡◌, refl}
use mathlib.Core.Bool.{Bool, true, false}
use mathlib.Core.Logic.{◌↔◌, inl, inr}
use text.Mathlib.Text.{◌==◌}
use text.Mathlib.TextEquality.{eq_iff}
use native.Mathlib.Omega.{arith}
use backhaus_ai_backend.Base.Tests.{Bool-cases}

mutual
  pub data Json : Type 0 where
    null : Json
    boolean : Bool → Json
    number : String → Json
    string : String → Json
    array : Items → Json
    object : Fields → Json

  pub data Items : Type 0 where
    nil : Items
    cons : Json → Items → Items

  pub data Fields : Type 0 where
    end : Fields
    field : String → Json → Fields → Fields

String-ne : (s t : String) → (s == t) ≡ false → ¬ (s ≡ t)
String-ne s t e p = ground (arith, eq_iff s t, p)

String-discrete : Discrete String
String-discrete s t = elim (Bool-cases (s == t)) [
  | inl e ↦ yes ((eq_iff s t).0 e)
  | inr e ↦ no (String-ne s t e)
]

Json-discrete : Discrete Json
Json-discrete = hlevel String-discrete

unfoldable pub json_eq : Json → Json → Bool
unfolding String-ne String-discrete Json-discrete
json_eq a b = elim (Json-discrete a b) [ yes _ ↦ true | no _ ↦ false ]

test_of_dec : {A : Type 0} (d : Dec A) → (elim d [ yes _ ↦ true | no _ ↦ false ] ≡ true) ↔ A
test_of_dec (yes a) = (λ _. a, λ _. refl)
test_of_dec (no n) = (λ e. cc, λ a. absurd (n a))

pub json_eq_iff : (a b : Json) → (json_eq a b ≡ true) ↔ (a ≡ b)
unfolding json_eq
json_eq_iff a b = test_of_dec (Json-discrete a b)

-- An object with one field that holds a text.
abbrev pub tagged : String → String → Json
tagged k v = object (field k (string v) end)
