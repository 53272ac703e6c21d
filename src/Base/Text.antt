-- ===== src/Base/Text.antt =====
-- Python texts: equality, truth, prefix and substring tests on the native `String`.
use Prim.Native.Char.{code}
use Prim.Native.String.{String}
use mathlib.Core.Path.{◌≡◌}
use mathlib.Core.Bool.{Bool, true, false}
use mathlib.Core.List.{List, [], ◌∷◌}
use text.Mathlib.Text.{◌==◌ as text_eq}
use text.Mathlib.TextEquality.{eq_iff}
use text.Mathlib.TextPositions.{eq_refl}
use theta_plus.Base.Tests.{if◌then◌else◌, ◌==◌}

abbrev pub str_eq : String → String → Bool
str_eq = text_eq

pub str_eq_iff : (s t : String) → ((str_eq s t ≡ true → s ≡ t) × (s ≡ t → str_eq s t ≡ true))
str_eq_iff s t = ((eq_iff s t).0, (eq_iff s t).1)

pub str_eq_refl : (s : String) → str_eq s s ≡ true
str_eq_refl s = eq_refl s

-- `bool(s)`
abbrev pub truthy : String → Bool
truthy String.[] = false
truthy (String.◌∷◌ c s) = true

-- `s in xs` for a list of texts
abbrev pub elem : String → List String → Bool
elem s [] = false
elem s (x ∷ xs) = if str_eq s x then true else elem s xs

-- `t.startswith(s)`
abbrev pub starts_with : String → String → Bool
starts_with String.[] t = true
starts_with (String.◌∷◌ c s) String.[] = false
starts_with (String.◌∷◌ c s) (String.◌∷◌ d t) = if code c == code d then starts_with s t else false

-- `s in t` for texts
abbrev pub contains_text : String → String → Bool
contains_text s String.[] = starts_with s String.[]
contains_text s (String.◌∷◌ c t) =
    if starts_with s (String.◌∷◌ c t) then true else contains_text s t
