-- ===== src/Text/Regex.antt =====
-- `std::regex_match`: whether a whole text is in the language of an expression, decided by
-- derivatives. Only what the two address patterns use is here.
use sipster.Base.{ℕ, Bool, true, false, ◌&&◌, ◌||◌, List, [], ◌∷◌, leb, if◌then◌else◌, Bytes}

-- `class` holds the ranges of a bracket expression.
pub data Regex : Type 0 where
  never : Regex
  empty : Regex
  class : List (ℕ × ℕ) → Regex
  alt : Regex → Regex → Regex
  seq : Regex → Regex → Regex
  star : Regex → Regex

abbrev pub in_ranges : List (ℕ × ℕ) → ℕ → Bool
in_ranges [] c = false
in_ranges ((lo, hi) ∷ rs) c = (leb lo c && leb c hi) || in_ranges rs c

pub nullable : Regex → Bool
nullable never = false
nullable empty = true
nullable (class rs) = false
nullable (alt r s) = nullable r || nullable s
nullable (seq r s) = nullable r && nullable s
nullable (star r) = true

-- `alt` and `seq` that drop what cannot match, so that derivatives stay small.
pub join : Regex → Regex → Regex
join never s = s
join r never = r
join r s = alt r s

pub chain : Regex → Regex → Regex
chain never s = never
chain r s = seq r s

pub derivative : Regex → ℕ → Regex
unfolding nullable join chain
derivative never c = never
derivative empty c = never
derivative (class rs) c = if in_ranges rs c then empty else never
derivative (alt r s) c = join (derivative r c) (derivative s c)
derivative (seq r s) c =
    join (chain (derivative r c) s) (if nullable r then derivative s c else never)
derivative (star r) c = chain (derivative r c) (star r)

unfoldable pub regex_match : Regex → Bytes → Bool
unfolding derivative nullable
regex_match r [] = nullable r
regex_match r (c ∷ cs) = regex_match (derivative r c) cs

-- One given byte; an optional part.
abbrev pub byte : ℕ → Regex
byte c = class ((c, c) ∷ [])

abbrev pub optional : Regex → Regex
optional r = alt empty r
