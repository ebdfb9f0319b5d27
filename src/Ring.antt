-- ===== src/Ring.antt =====
-- pkg/controller/v1beta2/controller.go: the regular expression `^([\w_-]+)-\d{14}$` of ring names,
-- and Go's `FindStringSubmatch` for it: leftmost-first matching, the loop greedy with backtracking.
pub mod Language
use Prim.Native.Char.{Char, code}
use Prim.Native.String.{[], ◌∷◌}
use mathlib.Core.Option
use mathlib.Core.List.{List}
use habitat_operator.Base.{
  ℕ, zero, suc, String, Bool, true, false, ◌&&◌, ◌||◌, Option, none, some, leb, if◌then◌else◌,
}

abbrev pub is_digit : Char → Bool
is_digit c = leb b'0' (code c) && leb (code c) b'9'

abbrev pub is_hyphen : Char → Bool
is_hyphen c = leb b'-' (code c) && leb (code c) b'-'

-- `[\w_-]`
unfoldable pub is_name_char : Char → Bool
is_name_char c =
    is_digit c
    || leb b'A' (code c) && leb (code c) b'Z'
    || leb b'a' (code c) && leb (code c) b'z'
    || leb b'_' (code c) && leb (code c) b'_'
    || is_hyphen c

-- `\d{n}$`
unfoldable pub ends_in_digits : ℕ → String → Bool
ends_in_digits zero [] = true
ends_in_digits zero (c ∷ s) = false
ends_in_digits (suc n) [] = false
ends_in_digits (suc n) (c ∷ s) = is_digit c && ends_in_digits n s

-- `-\d{14}$`
unfoldable pub is_revision : String → Bool
unfolding ends_in_digits
is_revision [] = false
is_revision (c ∷ s) = is_hyphen c && ends_in_digits 14 s

abbrev first_match : Option String → Bool → Option String
first_match (some g) b = some g
first_match none b = if b then some [] else none

-- `[\w_-]*` and what follows, from here: the longest match that lets the rest match.
unfoldable pub name_loop : String → Option String
unfolding is_revision is_name_char
name_loop [] = none
name_loop (c ∷ s) =
    first_match (if is_name_char c then Option.map (◌∷◌ c) (name_loop s) else none)
      (is_revision (c ∷ s))

-- The text of the group, where the expression matches.
unfoldable pub ring_group : String → Option String
unfolding name_loop
ring_group [] = none
ring_group (c ∷ s) = if is_name_char c then Option.map (◌∷◌ c) (name_loop s) else none

abbrev pub submatches : String → Option String → List String
submatches s none = List.[]
submatches s (some g) = List.◌∷◌ s (List.◌∷◌ g List.[])

-- `ringRegexp.FindStringSubmatch(s)`: nil, or the whole match and the group.
unfoldable pub find_string_submatch : String → List String
unfolding ring_group
find_string_submatch s = submatches s (ring_group s)
