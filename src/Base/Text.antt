-- ===== src/Base/Text.antt =====
-- Text operations of the language: the decimal rendering of a number inside a template literal, and
-- `trim`.
use Prim.Native.Nat.{ℕ, zero, suc, ◌+◌, ◌/◌, ◌%◌}
use Prim.Native.Char.{code}
use Prim.Native.String.{String, slice, ◌++◌}
use mathlib.Core.Path.{◌≡◌, refl}
use mathlib.Core.Bool.{Bool, true, ◌&&◌, ◌||◌}
use mathlib.Core.List.{List, [], ◌∷◌}
use looping_core.Base.Tests.{ltb, leb, ◌==◌, if◌then◌else◌}

-- `parts.join(separator)`.
unfoldable pub join_text : String → List String → String
join_text separator [] = ""
join_text separator (s ∷ []) = s
join_text separator (s ∷ (t ∷ rest)) = s ++ (separator ++ join_text separator (t ∷ rest))

digit : ℕ → String
digit d = slice "0123456789" d (d + 1)

-- The fuel is above the number, so it is above its count of digits.
show_digits : ℕ → ℕ → String
unfolding digit
show_digits zero n = ""
show_digits (suc f) n =
    let rest = show_digits f (n / 10) in if ltb n 10 then digit n else rest ++ digit (n % 10)

unfoldable pub show : ℕ → String
unfolding show_digits
show n = show_digits (suc n) n

-- ECMAScript's white space and line terminators, by code point.
is_space : ℕ → Bool
is_space c =
    (leb 9 c && leb c 13)
    || (c == 32 || (c == 160 || (c == 5760 || ((leb 8192 c && leb c 8202) || is_rare_space c))))
  where
    is_rare_space : ℕ → Bool
    is_rare_space c =
        c == 8232 || (c == 8233 || (c == 8239 || (c == 8287 || (c == 12288 || c == 65279))))

-- `text.trim() === ""`.
unfoldable pub is_blank : String → Bool
unfolding is_space
is_blank String.[] = true
is_blank (String.◌∷◌ c s) = is_space (code c) && is_blank s

trim_start : String → String
unfolding is_space
trim_start String.[] = ""
trim_start (String.◌∷◌ c s) = if is_space (code c) then trim_start s else String.◌∷◌ c s

-- A space is dropped where only spaces follow.
trim_end : String → String
trim_end String.[] = ""
trim_end (String.◌∷◌ c s) =
    if is_space (code c) && is_blank s then "" else String.◌∷◌ c (trim_end s)

unfoldable pub trim : String → String
unfolding trim_start trim_end is_blank
trim s = trim_end (trim_start s)

trims : trim "  ab c \n " ≡ "ab c"
unfolding trim
trims = refl
