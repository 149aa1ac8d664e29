-- ===== src/Base/Text.antt =====
-- Texts are compared and joined whole.
use Prim.Native.String.{String, compare}
use Prim.Native.String.{◌++◌ as string_append}
use text.Mathlib.Text.{◌==◌ as text_eq, is_lt}
use Prim.Native.Char.{code}
use Prim.Native.Nat.{ℕ, zero, suc, ◌-◌, ◌/◌, ◌%◌}
use mathlib.Core.Bool.{Bool, true, false, ◌&&◌}
use mathlib.Core.List.{List, [], ◌∷◌, map}
use mathlib.Core.Option.{some, none}
use poly_cortex.Base.Lists.{get_elem?}
use poly_cortex.Base.Tests.{leb, ◌==◌, if◌then◌else◌}

abbrev pub str_eq : String → String → Bool
str_eq s t = text_eq s t

-- The order of texts, by their characters' numbers.
abbrev pub str_lt : String → String → Bool
str_lt s t = is_lt (compare s t)

abbrev pub concat : String → String → String
concat s t = string_append s t

abbrev pub codes : String → List ℕ
codes String.[] = []
codes (String.◌∷◌ c s) = code c ∷ codes s

-- `s[:n]`
abbrev pub first_chars : ℕ → String → String
first_chars zero s = ""
first_chars (suc n) String.[] = ""
first_chars (suc n) (String.◌∷◌ c s) = String.◌∷◌ c (first_chars n s)

-- The upper case of a character, as far as the capitals of ASCII go: the long s is one more S.
abbrev pub upper_code : ℕ → ℕ
upper_code c = if leb b'a' c && leb c b'z' then c - 32 else if c == 0x17f then b'S' else c

abbrev pub same_codes : List ℕ → List ℕ → Bool
same_codes [] [] = true
same_codes (c ∷ cs) (d ∷ ds) = (c == d) && same_codes cs ds
same_codes _ _ = false

-- `s.upper() == word`, for a word in capitals of ASCII.
unfoldable pub upper_is : String → String → Bool
upper_is s word = same_codes (map upper_code (codes s)) (codes word)

digits : List String
digits = "0" ∷ "1" ∷ "2" ∷ "3" ∷ "4" ∷ "5" ∷ "6" ∷ "7" ∷ "8" ∷ "9" ∷ []

digit : ℕ → String
unfolding digits
digit n = elim (get_elem? digits n) [ none ↦ "" | some s ↦ s ]

-- A number has no more digits than its value.
decimal_from : ℕ → ℕ → String
unfolding digit
decimal_from zero n = digit n
decimal_from (suc fuel) n =
    let high = decimal_from fuel (n / 10) in
    if leb 10 n then concat high (digit (n % 10)) else digit n

-- `str(n)`
unfoldable pub decimal : ℕ → String
unfolding decimal_from
decimal n = decimal_from n n
