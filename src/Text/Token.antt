-- ===== src/Text/Token.antt =====
-- `nextToken`, `getRest` of src/utils.cpp and the trims of src/sipster/utils.h.
pub mod Split
use mathlib.Core.List.{reverse}
use sipster.Base.{
  ℕ, suc, ◌+◌, ◌-◌, Bool, true, false, ◌&&◌, ◌||◌, List, [], ◌∷◌, Option, none, some, leb, ◌==◌,
  if◌then◌else◌, length, take, drop, Bytes, contains,
}

-- A `std::size_t` cursor: an index, or `std::string::npos`.
pub data Position : Type 0 where
  at : ℕ → Position
  npos : Position

-- `input.find_first_of(delimiter)`: the first byte that is one of the delimiter's.
pub index_of_any : Bytes → Bytes → Option ℕ
index_of_any delimiter [] = none
index_of_any delimiter (c ∷ cs) =
    if contains delimiter c
    then some 0
    else elim (index_of_any delimiter cs) [ none ↦ none | some i ↦ some (suc i) ]

-- From an index inside the input: the token, and the cursor behind the delimiter.
pub token_from : Bytes → Bytes → ℕ → Bytes × Position
unfolding index_of_any
token_from input delimiter pos = elim (index_of_any delimiter (drop pos input)) [
  | none ↦ (drop pos input, npos)
  | some i ↦ (take i (drop pos input), at (pos + i + length delimiter))
]

unfoldable pub next_token : Bytes → Bytes → Position → Bytes × Position
unfolding token_from
next_token input delimiter npos = ([], npos)
next_token input delimiter (at pos) =
    if leb (length input) pos then ([], at pos) else token_from input delimiter pos

unfoldable pub get_rest : Bytes → Position → Bytes × Position
get_rest input npos = ([], npos)
get_rest input (at pos) = if leb (length input) pos then ([], at pos) else (drop pos input, npos)

-- `std::isspace` in the "C" locale.
abbrev pub is_space : ℕ → Bool
is_space c = c == b' ' || (leb 9 c && leb c 13)

unfoldable pub ltrim : Bytes → Bytes
ltrim [] = []
ltrim (c ∷ cs) = if is_space c then ltrim cs else c ∷ cs

unfoldable pub rtrim : Bytes → Bytes
unfolding ltrim
rtrim s = reverse (ltrim (reverse s))

unfoldable pub trim : Bytes → Bytes
unfolding rtrim ltrim
trim s = ltrim (rtrim s)
