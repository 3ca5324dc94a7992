-- ===== src/Common/Text.antt =====
-- The functions of Go's package strings that the program calls, on the characters of a text.
use Prim.Native.Nat.{ℕ}
use Prim.Native.Char.{Char, code}
use Prim.Native.String.{String, ◌++◌ as text_append}
use mathlib.Core.Path.{◌≡◌, refl}
use mathlib.Core.Bool.{Bool, true, false}
use mathlib.Core.Option.{Option, none, some}
use mathlib.Core.List.{List, [], ◌∷◌}
use usps_main.Common.Tests.{if◌then◌else◌, ◌==◌, str_eq}

-- What follows a prefix.
unfoldable pub strip_prefix : String → String → Option String
strip_prefix String.[] s = some s
strip_prefix (String.◌∷◌ c p) String.[] = none
strip_prefix (String.◌∷◌ c p) (String.◌∷◌ d s) =
    let rest = strip_prefix p s in if code c == code d then rest else none

abbrev pub is_some {ℓ} : {A : Type ℓ} → Option A → Bool
is_some none = false
is_some (some a) = true

unfoldable pub has_prefix : String → String → Bool
unfolding strip_prefix
has_prefix s p = is_some (strip_prefix p s)

unfoldable pub trim_prefix : String → String → String
unfolding strip_prefix
trim_prefix s p = elim (strip_prefix p s) [ none ↦ s | some rest ↦ rest ]

abbrev push : Char → Option String → Option String
push c none = none
push c (some s) = some (String.◌∷◌ c s)

-- What stands before a suffix.
unfoldable pub strip_suffix : String → String → Option String
strip_suffix p String.[] = if str_eq p "" then some "" else none
strip_suffix p (String.◌∷◌ c s) =
    let rest = strip_suffix p s in if str_eq p (String.◌∷◌ c s) then some "" else push c rest

unfoldable pub has_suffix : String → String → Bool
unfolding strip_suffix
has_suffix s p = is_some (strip_suffix p s)

unfoldable pub trim_suffix : String → String → String
unfolding strip_suffix
trim_suffix s p = elim (strip_suffix p s) [ none ↦ s | some rest ↦ rest ]

abbrev onto_first : Char → List String → List String
onto_first c [] = (String.◌∷◌ c "") ∷ []
onto_first c (s ∷ parts) = String.◌∷◌ c s ∷ parts

-- strings.Split by one character.
unfoldable pub split_on : ℕ → String → List String
split_on sep String.[] = "" ∷ []
split_on sep (String.◌∷◌ c s) =
    let parts = split_on sep s in if code c == sep then "" ∷ parts else onto_first c parts

abbrev pub split_slash : String → List String
split_slash s = split_on b'/' s

-- strings.Join by "/".
unfoldable pub join_slash : List String → String
join_slash [] = ""
join_slash (s ∷ []) = s
join_slash (s ∷ t ∷ parts) = text_append s (text_append "/" (join_slash (t ∷ parts)))

-- strings.Contains.
unfoldable pub contains : String → String → Bool
unfolding has_prefix
contains String.[] t = str_eq t ""
contains (String.◌∷◌ c s) t =
    let later = contains s t in if has_prefix (String.◌∷◌ c s) t then true else later

trim_prefix_example : trim_prefix "/v1/routes/r1/assign" "/v1/routes/" ≡ "r1/assign"
unfolding trim_prefix
trim_prefix_example = refl

split_slash_example : split_slash "r1/assign" ≡ "r1" ∷ "assign" ∷ []
unfolding split_on
split_slash_example = refl

trim_suffix_example : trim_suffix "d1/retry" "/retry" ≡ "d1"
unfolding trim_suffix
trim_suffix_example = refl
