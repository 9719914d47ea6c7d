-- ===== src/Common/Text.antt =====
-- What the services use of JavaScript's texts: `trim`, `toUpperCase` on ASCII letters, a trailing
-- slash cut off by `replace(/\/$/, '')`, and `toFixed(2)` of a number of cents.
use Prim.Native.Nat.{ℕ, zero, suc, ◌+◌, ◌/◌, ◌%◌}
use Prim.Native.Char.{Char, code}
use Prim.Native.String.{String}
use mathlib.Core.Path.{◌≡◌, refl}
use mathlib.Core.Bool.{Bool, true, false, ◌&&◌, ◌||◌}
use text.Mathlib.Text.{◌==◌}
use mathlib.Core.List.{List, [], ◌∷◌}
use help_mi.Common.Tests.{if◌then◌else◌, leb, ltb, nat_eq}
use help_mi.Common.Values.{concat}

-- The white space and line ends that `trim` removes.
abbrev pub is_space : ℕ → Bool
is_space c =
    (leb 9 c && leb c 13 || nat_eq c 32 || nat_eq c 160 || nat_eq c 5760)
    || (leb 8192 c && leb c 8202 || nat_eq c 8232 || nat_eq c 8233 || nat_eq c 8239)
    || (nat_eq c 8287 || nat_eq c 12288 || nat_eq c 65279)

unfoldable pub trim_start : String → String
trim_start String.[] = ""
trim_start (String.◌∷◌ c s) = if is_space (code c) then trim_start s else String.◌∷◌ c s

unfoldable pub trim_end : String → String
trim_end String.[] = ""
trim_end (String.◌∷◌ c s) =
    let rest = trim_end s in if rest == "" && is_space (code c) then "" else String.◌∷◌ c rest

unfoldable pub trim : String → String
unfolding trim_start trim_end
trim s = trim_end (trim_start s)

-- The character that stands in the second text where `c` stands in the first.
unfoldable pub translate : Char → String → String → Char
translate c (String.◌∷◌ a from) (String.◌∷◌ b to) =
    if nat_eq (code c) (code a) then b else translate c from to
translate c _ _ = c

unfoldable pub to_upper_case : String → String
unfolding translate
to_upper_case String.[] = ""
to_upper_case (String.◌∷◌ c s) =
    String.◌∷◌ (translate c "abcdefghijklmnopqrstuvwxyz" "ABCDEFGHIJKLMNOPQRSTUVWXYZ")
      (to_upper_case s)

unfoldable pub to_lower_case : String → String
unfolding translate
to_lower_case String.[] = ""
to_lower_case (String.◌∷◌ c s) =
    String.◌∷◌ (translate c "ABCDEFGHIJKLMNOPQRSTUVWXYZ" "abcdefghijklmnopqrstuvwxyz")
      (to_lower_case s)

unfoldable pub starts_with : String → String → Bool
starts_with s String.[] = true
starts_with String.[] (String.◌∷◌ b t) = false
starts_with (String.◌∷◌ a s) (String.◌∷◌ b t) =
    let rest = starts_with s t in nat_eq (code a) (code b) && rest

unfoldable pub contains : String → String → Bool
unfolding starts_with
contains String.[] t = t == ""
contains (String.◌∷◌ a s) t = starts_with (String.◌∷◌ a s) t || contains s t

-- The length in UTF-16 code units, as JavaScript counts it.
unfoldable pub units : String → ℕ
units String.[] = 0
units (String.◌∷◌ c s) = (if ltb (code c) 65536 then 1 else 2) + units s

-- The length in characters, as `MinLength` counts it: a pair of code units is one.
unfoldable pub points : String → ℕ
points String.[] = 0
points (String.◌∷◌ c s) = suc (points s)

-- A character before the first piece.
abbrev pub push_char : Char → List String → List String
push_char c [] = String.◌∷◌ c "" ∷ []
push_char c (s ∷ ss) = String.◌∷◌ c s ∷ ss

-- `s.split(c)` for one character
unfoldable pub split : ℕ → String → List String
split c String.[] = "" ∷ []
split c (String.◌∷◌ a s) =
    let rest = split c s in if nat_eq (code a) c then "" ∷ rest else push_char a rest

unfoldable pub drop_slash : String → String
drop_slash String.[] = ""
drop_slash (String.◌∷◌ c s) =
    let rest = drop_slash s in if s == "" && nat_eq (code c) b'/' then "" else String.◌∷◌ c rest

unfoldable pub digit : ℕ → String → String
digit n String.[] = ""
digit zero (String.◌∷◌ c s) = String.◌∷◌ c ""
digit (suc n) (String.◌∷◌ c s) = digit n s

unfoldable pub decimal : ℕ → ℕ → String
unfolding digit
decimal zero n = ""
decimal (suc fuel) n =
    let more = decimal fuel (n / 10) in
    concat (if ltb n 10 then "" else more) (digit (n % 10) "0123456789")

-- `(cents / 100).toFixed(2)`: the fuel exceeds the number of digits.
unfoldable pub to_fixed : ℕ → String
unfolding decimal digit
to_fixed cents =
    concat (decimal (suc (cents / 100)) (cents / 100))
      (concat "." (concat (digit (cents / 10 % 10) "0123456789") (digit (cents % 10) "0123456789")))

to_fixed_test : to_fixed 123405 ≡ "1234.05"
unfolding to_fixed
to_fixed_test = refl

to_upper_case_test : to_upper_case "ab-09" ≡ "AB-09"
unfolding to_upper_case
to_upper_case_test = refl

trim_test : drop_slash (trim "  https://a.lk/ ") ≡ "https://a.lk"
unfolding trim drop_slash
trim_test = refl
