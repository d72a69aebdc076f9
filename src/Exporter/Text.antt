-- ===== src/Exporter/Text.antt =====
-- The methods of texts and numbers that the exporter calls.
use Prim.Native.Char.{code}
use Prim.Native.String.{String}
use aethalloc.Prelude.{
  ℕ, zero, suc, ◌+◌, ◌-◌, ◌*◌, ◌/◌, ◌%◌, Bool, true, false, Option, none, some, List, [], ◌∷◌, ◌&&◌,
  ◌||◌, ltb, leb, ◌==◌, if◌then◌else◌,
}

abbrev pub codes : String → List ℕ
codes String.[] = []
codes (String.◌∷◌ c s) = code c ∷ codes s

unfoldable pub same : List ℕ → List ℕ → Bool
same [] [] = true
same [] (y ∷ ys) = false
same (x ∷ xs) [] = false
same (x ∷ xs) (y ∷ ys) = (x == y) && same xs ys

-- The digits of a number before a text; 20 digits are enough for 64 bits.
unfoldable pub digits_before : (fuel n : ℕ) → List ℕ → List ℕ
digits_before zero n text = text
digits_before (suc fuel) n text =
    let more = digits_before fuel (n / 10) ((48 + n % 10) ∷ text) in
    if ltb n 10 then (48 + n) ∷ text else more

unfoldable pub decimal : ℕ → List ℕ
unfolding digits_before
decimal n = digits_before 20 n []

-- `u16::from_str`: each digit is taken with checked arithmetic.
unfoldable pub parse_digits : (value : ℕ) → List ℕ → Option ℕ
parse_digits value [] = some value
parse_digits value (c ∷ rest) =
    let next = value * 10 + (c - 48) in
    let again = parse_digits next rest in
    if (leb 48 c && leb c 57) && ltb next 65536 then again else none

-- A plus sign may come first; nothing, and a sign alone, are no number.
unfoldable pub parse_u16 : List ℕ → Option ℕ
unfolding parse_digits
parse_u16 [] = none
parse_u16 (c ∷ []) = if c == 43 then none else parse_digits 0 (c ∷ [])
parse_u16 (c ∷ d ∷ rest) =
    if c == 43 then parse_digits 0 (d ∷ rest) else parse_digits 0 (c ∷ d ∷ rest)

-- `lines().next()`, with no line taken as the empty one: up to a line feed, and without a carriage return
-- before it.
unfoldable pub first_line : List ℕ → List ℕ
first_line [] = []
first_line (c ∷ []) = if c == 10 then [] else c ∷ []
first_line (c ∷ d ∷ rest) =
    let more = first_line (d ∷ rest) in
    if c == 10 then [] else if (c == 13) && (d == 10) then [] else c ∷ more

-- `char::is_whitespace`
unfoldable pub is_whitespace : ℕ → Bool
is_whitespace c =
    (leb 9 c && leb c 13)
    || (c == 32)
    || (c == 133)
    || (c == 160)
    || (c == 5760)
    || (leb 8192 c && leb c 8202)
    || (c == 8232)
    || (c == 8233)
    || (c == 8239)
    || (c == 8287)
    || (c == 12288)

-- A text without the white space at its start, and without its first word.
unfoldable pub skip_space : List ℕ → List ℕ
unfolding is_whitespace
skip_space [] = []
skip_space (c ∷ rest) = let more = skip_space rest in if is_whitespace c then more else c ∷ rest

unfoldable pub first_word : List ℕ → List ℕ
unfolding is_whitespace
first_word [] = []
first_word (c ∷ rest) = let more = first_word rest in if is_whitespace c then [] else c ∷ more

unfoldable pub after_word : List ℕ → List ℕ
unfolding is_whitespace
after_word [] = []
after_word (c ∷ rest) = let more = after_word rest in if is_whitespace c then c ∷ rest else more

-- `split_whitespace().nth(1)`
unfoldable pub second_word : List ℕ → Option (List ℕ)
unfolding skip_space first_word after_word
second_word text = elim (first_word (skip_space (after_word (skip_space text)))) [
  | [] ↦ none
  | c ∷ word ↦ some (c ∷ word)
]
