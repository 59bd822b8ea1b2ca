-- ===== src/Base/Text.antt =====
-- What the code uses of `str`: `trim` and the count of characters. `len` and `count` of a native
-- text are Rust's `len()` (bytes) and `chars().count()`.
use Prim.Native.Nat.{ℕ, zero, suc}
use Prim.Native.Char.{Char, code}
use Prim.Native.String.{String}
use mathlib.Core.Path.{◌≡◌, refl}
use mathlib.Core.Bool.{Bool, true, false, ◌&&◌, ◌||◌}
use mathlib.Core.Option.{Option, none, some}
use mathlib.Core.List.{List, [], ◌∷◌}
use text.Mathlib.Text.{◌==◌ as str_eq}
use native.Mathlib.Omega.{arith}
use text.Mathlib.TextEquality.{eq_iff}
use backhaus_ai_backend.Base.Tests.{◌==◌, leb, if◌then◌else◌}

-- `char::is_whitespace`: the Unicode property White_Space.
pub is_whitespace : ℕ → Bool
is_whitespace c =
    (leb 9 c && leb c 13)
    || c == 32
    || c == 0x85
    || c == 0xa0
    || c == 0x1680
    || (leb 0x2000 c && leb c 0x200a)
    || c == 0x2028
    || c == 0x2029
    || c == 0x202f
    || c == 0x205f
    || c == 0x3000

trim_start : String → String
unfolding is_whitespace
trim_start String.[] = String.[]
trim_start (String.◌∷◌ c s) =
    let rest = trim_start s in if is_whitespace (code c) then rest else String.◌∷◌ c s

blank : String → Bool
unfolding is_whitespace
blank String.[] = true
blank (String.◌∷◌ c s) = is_whitespace (code c) && blank s

trim_end : String → String
unfolding blank
trim_end String.[] = String.[]
trim_end (String.◌∷◌ c s) =
    let rest = trim_end s in
    if is_whitespace (code c) && blank s then String.[] else String.◌∷◌ c rest

-- `str::trim`
unfoldable pub trim : String → String
unfolding trim_start trim_end
trim s = trim_end (trim_start s)

-- `chars().take(n).collect()`
unfoldable pub take_chars : ℕ → String → String
take_chars zero s = String.[]
take_chars (suc n) String.[] = String.[]
take_chars (suc n) (String.◌∷◌ c s) = String.◌∷◌ c (take_chars n s)

-- `str::is_empty`
abbrev pub is_empty : String → Bool
is_empty String.[] = true
is_empty (String.◌∷◌ c s) = false

-- `str::strip_prefix`
abbrev pub strip_prefix : String → String → Option String
strip_prefix String.[] s = some s
strip_prefix (String.◌∷◌ p ps) String.[] = none
strip_prefix (String.◌∷◌ p ps) (String.◌∷◌ c s) =
    let rest = strip_prefix ps s in if code p == code c then rest else none

-- `str::starts_with`
abbrev pub starts_with : String → String → Bool
starts_with p s = elim (strip_prefix p s) [ none ↦ false | some _ ↦ true ]

abbrev push_first : Char → List String → List String
push_first c [] = String.◌∷◌ c String.[] ∷ []
push_first c (p ∷ ps) = String.◌∷◌ c p ∷ ps

-- `str::ends_with`
abbrev pub ends_with : String → String → Bool
ends_with p String.[] = str_eq p String.[]
ends_with p (String.◌∷◌ c s) = let rest = ends_with p s in str_eq p (String.◌∷◌ c s) || rest

-- `str::contains` of a text
abbrev pub contains : String → String → Bool
contains p String.[] = starts_with p String.[]
contains p (String.◌∷◌ c s) = let rest = contains p s in starts_with p (String.◌∷◌ c s) || rest

-- `split` at each character of one code
abbrev pub split_on : ℕ → String → List String
split_on d String.[] = String.[] ∷ []
split_on d (String.◌∷◌ c s) =
    let rest = split_on d s in if code c == d then String.[] ∷ rest else push_first c rest

-- `contains`, for a test on the code of a character.
abbrev pub any_char : (ℕ → Bool) → String → Bool
any_char p String.[] = false
any_char p (String.◌∷◌ c s) = p (code c) || any_char p s

pub str_ne : (s t : String) → ¬ (s ≡ t) → str_eq s t ≡ false
str_ne s t h = ground (arith, eq_iff s t)

pub str_eq_comm : (s t : String) → str_eq s t ≡ str_eq t s
str_eq_comm s t = ground (arith, eq_iff s t, eq_iff t s)

pub str_eq_refl : (s : String) → str_eq s s ≡ true
str_eq_refl s = (eq_iff s s).1 refl

trim_example : trim "  a b \n" ≡ "a b"
unfolding trim
trim_example = refl
