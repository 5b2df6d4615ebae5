-- ===== src/Common/Text.antt =====
-- The string methods that the program calls. A `String` is compared whole by `===`; a text that is
-- lowercased or searched is the list of its code points. `toLowerCase` is modelled on the letters
-- A to Z, the ones that occur in the texts the program searches for; other characters are kept.
use Prim.Native.Nat.{ℕ, ◌+◌, ◌-◌}
use Prim.Native.Char.{code}
use Prim.Native.String.{String}
use mathlib.Core.Path.{◌≡◌, refl}
use mathlib.Core.Logic.{◌↔◌}
use mathlib.Core.Bool.{Bool, true, false, ◌&&◌, ◌||◌}
use mathlib.Core.List.{List, [], ◌∷◌, ◌++◌, map, reverse}
use native.Mathlib.Omega.{arith}
use drishtiscope_oss.Common.Tests.{leb, nat_eq, if◌then◌else◌}

abbrev pub codes : String → List ℕ
codes String.[] = []
codes (String.◌∷◌ c s) = code c ∷ codes s

unfoldable pub lower_code : ℕ → ℕ
lower_code c = if leb b'A' c && leb c b'Z' then c + 32 else c

-- `s.toLowerCase()`
unfoldable pub to_lower : List ℕ → List ℕ
unfolding lower_code
to_lower cs = map lower_code cs

-- `s.toUpperCase()`, on the letters a to z
unfoldable pub to_upper : List ℕ → List ℕ
to_upper cs = map (λ c. if leb b'a' c && leb c b'z' then c - 32 else c) cs

-- `===` on texts as code points.
unfoldable pub same_codes : List ℕ → List ℕ → Bool
same_codes [] [] = true
same_codes (a ∷ as') (b ∷ bs) = nat_eq a b && same_codes as' bs
same_codes _ _ = false

-- `s.startsWith(t)`
unfoldable pub starts_with : List ℕ → List ℕ → Bool
starts_with s [] = true
starts_with [] (b ∷ t) = false
starts_with (a ∷ s) (b ∷ t) = nat_eq a b && starts_with s t

-- `s.includes(t)`
unfoldable pub includes : List ℕ → List ℕ → Bool
unfolding starts_with
includes [] t = starts_with [] t
includes (a ∷ s) t = starts_with (a ∷ s) t || includes s t

-- Whitespace as `trim` and `parseInt` read it (its characters below U+0080, and U+00A0).
abbrev pub is_space : ℕ → Bool
is_space c = (leb 9 c && leb c 13) || nat_eq c 32 || nat_eq c 160

unfoldable pub drop_space : List ℕ → List ℕ
drop_space [] = []
drop_space (c ∷ s) = if is_space c then drop_space s else c ∷ s

-- `s.trim()`
unfoldable pub trim : List ℕ → List ℕ
unfolding drop_space
trim s = reverse (drop_space (reverse (drop_space s)))

abbrev pub is_digit : ℕ → Bool
is_digit c = leb b'0' c && leb c b'9'

pub lower_code_idempotent : (c : ℕ) → lower_code (lower_code c) ≡ lower_code c
unfolding lower_code
lower_code_idempotent c = ground arith

pub to_lower_idempotent : (s : List ℕ) → to_lower (to_lower s) ≡ to_lower s
unfolding to_lower
to_lower_idempotent [] = refl
to_lower_idempotent (c ∷ s) = cc (lower_code_idempotent c, to_lower_idempotent s)

pub same_codes_iff : (s t : List ℕ) → (same_codes s t ≡ true) ↔ (s ≡ t)
unfolding same_codes
same_codes_iff [] [] = ground arith
same_codes_iff [] (b ∷ t) = ground arith
same_codes_iff (a ∷ s) [] = ground arith
same_codes_iff (a ∷ s) (b ∷ t) = ground (arith, same_codes_iff s t)

pub starts_with-append : (s t : List ℕ) → starts_with (s ++ t) s ≡ true
unfolding starts_with
starts_with-append [] t = ground arith
starts_with-append (a ∷ s) t = ground (arith, starts_with-append s t)

-- A text that was found splits the text around it.
pub includes-append : (s t u : List ℕ) → includes (s ++ (t ++ u)) t ≡ true
unfolding includes
includes-append [] [] [] = refl
includes-append [] [] (c ∷ u) = refl
includes-append [] (a ∷ t) u = ground (arith, starts_with-append (a ∷ t) u)
includes-append (a ∷ s) t u = ground (arith, includes-append s t u)
