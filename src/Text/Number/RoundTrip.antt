-- ===== src/Text/Number/RoundTrip.antt =====
-- `strtol` reads back what `%u` and `%lu` print, in front of any text that does not go on with a digit.
use sipster.Text.Token.Split.{IsFree}
use sipster.Text.{to_unsigned, ltrim, atol, atoi}
use native.Mathlib.Nat.{pow-suc}
use sipster.Base.{
  length, ◌≤◌, append-nil, sym, ℕ, zero, suc, ◌+◌, ◌*◌, ◌/◌, ◌%◌, ◌^◌, ◌<◌, true, false, [], ◌∷◌,
  ◌++◌, ◌≡◌, inl, inr, refl, ap, ◌∙◌, arith, ◌==◌, Bytes, Bool-cases,
}
use sipster.Text.Number.{pos, is_digit, scan_digits, saturate, strtol, digits, decimal}

-- The text is over, or goes on with a byte that is no digit.
abbrev pub Stops : Bytes → Type 0
Stops [] = Unit
Stops (c ∷ cs) = is_digit c ≡ false

abbrev pub HeadDigit : Bytes → Type 0
HeadDigit [] = ⊥
HeadDigit (c ∷ cs) = is_digit c ≡ true

scan_digits-Stops : (n : ℕ) (rest : Bytes) → Stops rest → scan_digits n rest ≡ n
unfolding scan_digits
scan_digits-Stops n [] h = refl
scan_digits-Stops n (c ∷ cs) h = rw h

digits-append :
    (fuel n : ℕ) (out rest : Bytes) → digits fuel n out ++ rest ≡ digits fuel n (out ++ rest)
unfolding digits
digits-append zero n out rest = refl
digits-append (suc fuel) n out rest =
    ground (arith, digits-append fuel (n / 10) ((b'0' + n % 10) ∷ out) rest)

-- Reading the last digit of `n` behind the digits before it gives `n`.
scan_last : (n : ℕ) (out : Bytes) → scan_digits (n / 10) ((b'0' + n % 10) ∷ out) ≡ scan_digits n out
unfolding scan_digits
scan_last n out = ground arith

scan_digits-digits :
    (fuel n : ℕ) (out : Bytes)
    → n < 10 ^ fuel
    → scan_digits 0 (digits fuel n out) ≡ scan_digits n out
unfolding digits
scan_digits-digits zero n out h = ap (λ k. scan_digits k out) (omega arith)
scan_digits-digits (suc fuel) n out h =
    let h' : n < 10 ^ fuel * 10 = rw pow-suc at h in
    ground (
      arith,
      scan_digits-digits fuel (n / 10) ((b'0' + n % 10) ∷ out) (omega arith),
      scan_last n out,
    )

digits-HeadDigit : (fuel n : ℕ) (out : Bytes) → HeadDigit out → HeadDigit (digits fuel n out)
unfolding digits
digits-HeadDigit zero n out h = h
digits-HeadDigit (suc fuel) n out h =
    ground (arith, digits-HeadDigit fuel (n / 10) ((b'0' + n % 10) ∷ out))

strtol-HeadDigit : (s : Bytes) → HeadDigit s → strtol s ≡ saturate false (scan_digits 0 s)
unfolding strtol ltrim
strtol-HeadDigit (c ∷ cs) h = ground arith
strtol-HeadDigit [] h = absurd h

digits-HeadDigit_pos :
    (fuel n : ℕ) (out : Bytes) → n == 0 ≡ false → HeadDigit (digits (suc fuel) n out)
unfolding digits
digits-HeadDigit_pos fuel n out nz =
    rw nz (digits-HeadDigit fuel (n / 10) ((b'0' + n % 10) ∷ out) (ground arith))

pub decimal-HeadDigit : (n : ℕ) (rest : Bytes) → HeadDigit (decimal n ++ rest)
unfolding decimal
decimal-HeadDigit n rest = elim (Bool-cases (n == 0)) [
  | inl z ↦ rw z refl
  | inr nz ↦ rw (nz, digits-append 20 n [] rest) (digits-HeadDigit_pos 19 n rest nz)
]

scan_digits-zero : (rest : Bytes) → Stops rest → scan_digits 0 (b'0' ∷ rest) ≡ 0
unfolding scan_digits
scan_digits-zero rest s = scan_digits-Stops 0 rest s

pub scan_digits-decimal :
    (n : ℕ) (rest : Bytes) → n < 10 ^ 20 → Stops rest → scan_digits 0 (decimal n ++ rest) ≡ n
unfolding decimal
scan_digits-decimal n rest h s = elim (Bool-cases (n == 0)) [
  | inl z ↦ rw z (scan_digits-zero rest s ∙ ground arith)
  | inr nz ↦
      rw (nz, digits-append 20 n [] rest)
        (scan_digits-digits 20 n rest h ∙ scan_digits-Stops n rest s)
]

-- A number below 2 ^ 63 that is printed in decimal, in front of a text that does not go on with a
-- digit, is read back by `strtol`.
pub strtol-decimal :
    (n : ℕ) (rest : Bytes) → n < 2 ^ 63 → Stops rest → strtol (decimal n ++ rest) ≡ pos n
strtol-decimal n rest h s =
    strtol-HeadDigit (decimal n ++ rest) (decimal-HeadDigit n rest)
    ∙ rw (scan_digits-decimal n rest (omega arith) s) (ground arith)

digits-IsFree :
    (fuel n c : ℕ) (out : Bytes)
    → is_digit c ≡ false
    → IsFree (c ∷ []) out
    → IsFree (c ∷ []) (digits fuel n out)
unfolding digits
digits-IsFree zero n c out h f = f
digits-IsFree (suc fuel) n c out h f =
    ground (arith, digits-IsFree fuel (n / 10) c ((b'0' + n % 10) ∷ out))

-- A printed number holds digits only.
pub decimal-IsFree : (n c : ℕ) → is_digit c ≡ false → IsFree (c ∷ []) (decimal n)
unfolding decimal
decimal-IsFree n c h = elim (Bool-cases (n == 0)) [
  | inl z ↦ rw z (ground arith, tt)
  | inr nz ↦ rw nz (digits-IsFree 20 n c [] h tt)
]

strtol-decimal_end : (n : ℕ) → n < 2 ^ 63 → strtol (decimal n) ≡ pos n
strtol-decimal_end n h = ap strtol (sym (append-nil (decimal n))) ∙ strtol-decimal n [] h tt

pub atoi-decimal : (n : ℕ) → n < 2 ^ 32 → atoi 32 (decimal n) ≡ n
unfolding atoi
atoi-decimal n h = ap (to_unsigned 32) (strtol-decimal_end n (omega arith)) ∙ omega arith

pub atoi-decimal_short : (n : ℕ) → n < 2 ^ 16 → atoi 16 (decimal n) ≡ n
unfolding atoi
atoi-decimal_short n h = ap (to_unsigned 16) (strtol-decimal_end n (omega arith)) ∙ omega arith

pub atoi-decimal_byte : (n : ℕ) → n < 2 ^ 8 → atoi 8 (decimal n) ≡ n
unfolding atoi
atoi-decimal_byte n h = ap (to_unsigned 8) (strtol-decimal_end n (omega arith)) ∙ omega arith

pub atol-decimal : (n : ℕ) → n < 2 ^ 63 → atol (decimal n) ≡ n
unfolding atol
atol-decimal n h = ap (to_unsigned 64) (strtol-decimal_end n h) ∙ omega arith

length-digits : (fuel n : ℕ) (out : Bytes) → length (digits fuel n out) ≤ fuel + length out
unfolding digits
length-digits zero n out = omega arith
length-digits (suc fuel) n out = ground (arith, length-digits fuel (n / 10) ((b'0' + n % 10) ∷ out))

pub length-decimal : (n : ℕ) → length (decimal n) ≤ 20
unfolding decimal
length-decimal n = ground (arith, length-digits 20 n [])

length-digits_lt :
    (fuel k n : ℕ) (out : Bytes) → n < 10 ^ k → length (digits fuel n out) ≤ k + length out
unfolding digits
length-digits_lt zero k n out h = omega arith
length-digits_lt (suc fuel) zero n out h = let z : n ≡ 0 = omega (arith, h) in rw z (omega arith)
length-digits_lt (suc fuel) (suc k) n out h =
    let h' : n < 10 ^ k * 10 = rw pow-suc at h in
    let ih = length-digits_lt fuel k (n / 10) ((b'0' + n % 10) ∷ out) (omega arith) in
    ground (arith, ih)

-- A number below a power of ten has at most as many digits.
pub length-decimal_lt : (k n : ℕ) → n < 10 ^ suc k → length (decimal n) ≤ suc k
unfolding decimal
length-decimal_lt k n h = ground (arith, length-digits_lt 20 (suc k) n [] h)

-- A printed number starts with no blank.
pub ltrim-decimal : (n : ℕ) (rest : Bytes) → ltrim (decimal n ++ rest) ≡ decimal n ++ rest
unfolding ltrim
ltrim-decimal n rest = go (decimal n ++ rest) (decimal-HeadDigit n rest)
  where
    go : (s : Bytes) → HeadDigit s → ltrim s ≡ s
    go [] h = absurd h
    go (c ∷ cs) h = ground arith
