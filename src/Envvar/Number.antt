-- ===== src/Envvar/Number.antt =====
-- envvar.c: the numbers in the options, `item_uint_process` and `item_size_process` up to what they
-- store. Space and digits are those of the C locale; `strtoul` is that of a 64-bit `long`.
use libumem.Base.{
  ℕ, zero, suc, ◌+◌, ◌-◌, ◌*◌, ◌%◌, ◌^◌, Bool, true, false, ◌&&◌, ◌||◌, Option, none, some, List,
  [], ◌∷◌, ltb, leb, ◌==◌, if◌then◌else◌,
}
use libumem.Word.{word}

-- The characters are the source's: space, '\t' to '\r', '0' to '9'.
abbrev pub isspace : ℕ → Bool
isspace c = c == 32 || (leb 9 c && leb c 13)

abbrev pub isdigit : ℕ → Bool
isdigit c = leb 48 c && leb c 57

-- `empty`
abbrev pub empty : List ℕ → Bool
empty [] = true
empty (c ∷ cs) = isspace c && empty cs

abbrev pub skip_space : List ℕ → List ℕ
skip_space [] = []
skip_space (c ∷ cs) = if isspace c then skip_space cs else c ∷ cs

-- What `strtoul` answers: its value, whether it sets ERANGE, and the text behind the number.
pub record Strtoul : Type 0 where
  pub value : ℕ
  pub erange : Bool
  pub rest : List ℕ

abbrev pub in_range : Bool → ℕ → List ℕ → Strtoul
in_range negative n rest =
    if ltb n word
    then record { value = if negative then (word - n) % word else n; erange = false; rest = rest }
    else record { value = word - 1; erange = true; rest = rest }

abbrev pub read_digits : Bool → ℕ → List ℕ → Strtoul
read_digits negative n [] = in_range negative n []
read_digits negative n (c ∷ cs) =
    if isdigit c then read_digits negative (n * 10 + (c - 48)) cs else in_range negative n (c ∷ cs)

-- Without a digit nothing is read.
abbrev pub read_number : Bool → List ℕ → List ℕ → Strtoul
read_number negative text [] = record { value = 0; erange = false; rest = text }
read_number negative text (c ∷ cs) =
    if isdigit c
    then read_digits negative 0 (c ∷ cs)
    else record { value = 0; erange = false; rest = text }

abbrev pub read_sign : List ℕ → List ℕ → Strtoul
read_sign text [] = record { value = 0; erange = false; rest = text }
read_sign text (c ∷ cs) =
    if c == 45
    then read_number true text cs
    else if c == 43
    then read_number false text cs
    else read_number false text (c ∷ cs)

-- `strtoul` in base 10.
abbrev pub strtoul : List ℕ → Strtoul
strtoul text = read_sign text (skip_space text)

pub data Parsed : Type 0 where
  number : ℕ → Parsed
  badnumber : Parsed
  overflow : Parsed

abbrev pub nothing_behind : List ℕ → ℕ → Parsed
nothing_behind [] n = number n
nothing_behind (c ∷ cs) n = badnumber

abbrev pub as_uint : Parsed → Parsed
as_uint (number n) = if n % 2 ^ 32 == n then number n else overflow
as_uint badnumber = badnumber
as_uint overflow = overflow

-- `item_uint_process`
unfoldable pub parse_uint : List ℕ → Parsed
parse_uint text =
    let s = strtoul text in
    if empty text
    then badnumber
    else if s.value == word - 1 && s.erange
    then overflow
    else as_uint (nothing_behind s.rest s.value)

-- How often the size character multiplies by 1024: 't', 'g', 'm', 'k'.
abbrev pub size_steps : ℕ → ℕ
size_steps c =
    if c == 116 || c == 84
    then 4
    else if c == 103 || c == 71
    then 3
    else if c == 109 || c == 77
    then 2
    else if c == 107 || c == 75
    then 1
    else 0

-- The cases of the `switch`, which fall through; `none` is its overflow.
abbrev pub scale : ℕ → ℕ → ℕ → Option ℕ
scale zero result_arg result = some result
scale (suc n) result_arg result =
    let next = result * 1024 % word in
    let rest = scale n result_arg next in if ltb next result_arg then none else rest

abbrev pub scaled : List ℕ → ℕ → ℕ → Parsed
scaled rest n result_arg = elim (scale n result_arg result_arg) [
  | none ↦ overflow
  | some r ↦ nothing_behind rest r
]

abbrev pub with_size : List ℕ → ℕ → Parsed
with_size [] n = number n
with_size (c ∷ cs) n = if size_steps c == 0 then badnumber else scaled cs (size_steps c) n

-- `item_size_process`
unfoldable pub parse_size : List ℕ → Parsed
parse_size text =
    let s = strtoul text in
    if empty text
    then badnumber
    else if s.value == word - 1 && s.erange
    then overflow
    else with_size s.rest s.value
