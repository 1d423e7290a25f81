-- ===== src/Text/Number.antt =====
-- `atoi`, `atol`, `strtol`, and the decimal conversions of `snprintf`, as the program uses them.
pub mod RoundTrip
use sipster.Base.{
  ℕ, zero, suc, ◌+◌, ◌-◌, ◌*◌, ◌/◌, ◌%◌, ◌^◌, Bool, true, false, ◌&&◌, [], ◌∷◌, ltb, leb, ◌==◌,
  if◌then◌else◌, Bytes,
}
use sipster.Text.Token.{ltrim}

-- `negsuc n` is -(n + 1).
pub data ℤ : Type 0 where
  pos : ℕ → ℤ
  negsuc : ℕ → ℤ

abbrev pub is_digit : ℕ → Bool
is_digit c = leb b'0' c && leb c b'9'

-- The number that the leading digits spell behind `n`.
unfoldable pub scan_digits : ℕ → Bytes → ℕ
scan_digits n [] = n
scan_digits n (c ∷ cs) =
    let rest = scan_digits (n * 10 + (c - b'0')) cs in if is_digit c then rest else n

-- `strtol` saturates to the 64 bits of a `long`.
abbrev pub saturate : Bool → ℕ → ℤ
saturate false n = if ltb n (2 ^ 63) then pos n else pos (2 ^ 63 - 1)
saturate true zero = pos 0
saturate true (suc n) = if ltb n (2 ^ 63) then negsuc n else negsuc (2 ^ 63 - 1)

abbrev pub signed : Bytes → ℤ
signed [] = pos 0
signed (c ∷ cs) =
    if c == b'-'
    then saturate true (scan_digits 0 cs)
    else if c == b'+'
    then saturate false (scan_digits 0 cs)
    else saturate false (scan_digits 0 (c ∷ cs))

unfoldable pub strtol : Bytes → ℤ
strtol s = signed (ltrim s)

-- Conversion of an integer to an unsigned type of `w` bits.
abbrev pub to_unsigned : ℕ → ℤ → ℕ
to_unsigned w (pos n) = n % 2 ^ w
to_unsigned w (negsuc n) = 2 ^ w - 1 - n % 2 ^ w

-- `atol(s)` stored in an `unsigned long`; `atoi(s)` stored in an unsigned type of at most 32 bits.
unfoldable pub atol : Bytes → ℕ
atol s = to_unsigned 64 (strtol s)

unfoldable pub atoi : ℕ → Bytes → ℕ
atoi w s = to_unsigned w (strtol s)

-- The digits of a number in front of `out`; the fuel bounds their number.
unfoldable pub digits : ℕ → ℕ → Bytes → Bytes
digits zero n out = out
digits (suc fuel) n out =
    let rest = digits fuel (n / 10) ((b'0' + n % 10) ∷ out) in if n == 0 then out else rest

-- `%u` and `%lu`: twenty digits are enough below 2 ^ 64.
unfoldable pub decimal : ℕ → Bytes
decimal n = if n == 0 then b'0' ∷ [] else digits 20 n []
