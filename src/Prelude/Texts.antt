-- ===== src/Prelude/Texts.antt =====
-- Python's `strip` and `lower` on texts whose letters and blanks are ASCII, and the length of a text.
use Prim.Native.Char.{Char, code}
use Prim.Native.Nat.{ℕ, suc}
use Prim.Native.String.{String}
use mathlib.Core.Bool.{Bool, ◌&&◌, ◌||◌}
use mathlib.Core.Path.{◌≡◌, refl}
use mathlib.Core.List.{List, [], ◌∷◌}
use landy_heater.Prelude.Tests.{leb, ◌==◌, if◌then◌else◌}

-- The number of characters, Python's `len`.
abbrev pub text_length : String → ℕ
text_length String.[] = 0
text_length (String.◌∷◌ c s) = suc (text_length s)

abbrev is_blank : Char → Bool
is_blank c =
    (code c == 32) || (leb 9 (code c) && leb (code c) 13) || (leb 28 (code c) && leb (code c) 31)

abbrev strip_left : String → String
strip_left String.[] = String.[]
strip_left (String.◌∷◌ c s) = let rest = strip_left s in if is_blank c then rest else String.◌∷◌ c s

-- A character before a text whose blanks at the end are gone.
abbrev before_stripped : Char → String → String
before_stripped c String.[] = if is_blank c then String.[] else String.◌∷◌ c String.[]
before_stripped c (String.◌∷◌ d s) = String.◌∷◌ c (String.◌∷◌ d s)

abbrev strip_right : String → String
strip_right String.[] = String.[]
strip_right (String.◌∷◌ c s) = before_stripped c (strip_right s)

-- The capital letters and what they become.
abbrev lower_case : List (ℕ × Char)
lower_case =
    (65, "a")
    ∷ (66, "b")
    ∷ (67, "c")
    ∷ (68, "d")
    ∷ (69, "e")
    ∷ (70, "f")
    ∷ (71, "g")
    ∷ (72, "h")
    ∷ (73, "i")
    ∷ (74, "j")
    ∷ (75, "k")
    ∷ (76, "l")
    ∷ (77, "m")
    ∷ (78, "n")
    ∷ (79, "o")
    ∷ (80, "p")
    ∷ (81, "q")
    ∷ (82, "r")
    ∷ (83, "s")
    ∷ (84, "t")
    ∷ (85, "u")
    ∷ (86, "v")
    ∷ (87, "w")
    ∷ (88, "x")
    ∷ (89, "y")
    ∷ (90, "z")
    ∷ []

abbrev lower_by : List (ℕ × Char) → Char → Char
lower_by [] c = c
lower_by ((n, small) ∷ rest) c = if code c == n then small else lower_by rest c

unfoldable pub lower : String → String
lower String.[] = String.[]
lower (String.◌∷◌ c s) = String.◌∷◌ (lower_by lower_case c) (lower s)

unfoldable pub strip : String → String
strip s = strip_left (strip_right s)

stripped : lower (strip " 28-AB \n") ≡ "28-ab"
unfolding lower strip
stripped = refl
