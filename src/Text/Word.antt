-- ===== src/Text/Word.antt =====
-- Texts without blanks, and what the trims and the token calls leave of them.
use mathlib.Core.List.{append-nil, List, reverse, reverse_aux, reverse-append, reverse-reverse}
use sipster.Base.{
  append-nil, ℕ, zero, suc, ◌+◌, ◌%◌, ◌/◌, ◌==◌, false, [], ◌∷◌, ◌++◌, ◌≡◌, ◌≢◌, refl, sym, ap, ◌∙◌,
  arith, All, Bytes, Bool-cases, inl, inr,
}
use sipster.Text.Token.{is_space, ltrim, rtrim, trim}
use sipster.Text.Token.Split.{IsFree}
use sipster.Text.Number.{digits, decimal}
use sipster.Text.Number.RoundTrip.{decimal-HeadDigit}

-- No byte is white space.
abbrev pub IsSolid : Bytes → Type 0
IsSolid = All (λ c. is_space c ≡ false)

-- A text that is there, without white space.
abbrev pub IsWord : Bytes → Type 0
IsWord s = (s ≢ []) × IsSolid s

module _ {ℓ} {A : Type ℓ} (P : A → Type ℓ) where
  pub All-append : (s t : List A) → All P s → All P t → All P (s ++ t)
  All-append [] t f g = g
  All-append (c ∷ s) t f g = (f.0, All-append s t f.1 g)

-- White space takes in the blank and the two bytes that end a line.
pub IsSolid-IsFree_blank : (s : Bytes) → IsSolid s → IsFree (b' ' ∷ []) s
IsSolid-IsFree_blank [] f = tt
IsSolid-IsFree_blank (c ∷ s) f = (ground (arith, f.0), IsSolid-IsFree_blank s f.1)

pub IsSolid-IsFree_line : (s : Bytes) → IsSolid s → IsFree (b'\r' ∷ b'\n' ∷ []) s
IsSolid-IsFree_line [] f = tt
IsSolid-IsFree_line (c ∷ s) f = (ground (arith, f.0), IsSolid-IsFree_line s f.1)

pub ltrim-IsWord : (s t : Bytes) → IsWord s → ltrim (s ++ t) ≡ s ++ t
unfolding ltrim
ltrim-IsWord [] t w = absurd (w.0 refl)
ltrim-IsWord (c ∷ s) t w = rw (w.1.0) refl

digits-IsSolid : (fuel n : ℕ) (out : Bytes) → IsSolid out → IsSolid (digits fuel n out)
unfolding digits
digits-IsSolid zero n out f = f
digits-IsSolid (suc fuel) n out f =
    ground (arith, digits-IsSolid fuel (n / 10) ((b'0' + n % 10) ∷ out))

decimal-IsSolid : (n : ℕ) → IsSolid (decimal n)
unfolding decimal
decimal-IsSolid n = elim (Bool-cases (n == 0)) [
  | inl z ↦ rw z (refl, tt)
  | inr nz ↦ rw nz (digits-IsSolid 20 n [] tt)
]

pub decimal-ne : (n : ℕ) → decimal n ≢ []
decimal-ne n e = let h = decimal-HeadDigit n [] in rw e at h

pub decimal-IsWord : (n : ℕ) → IsWord (decimal n)
decimal-IsWord n = (decimal-ne n, decimal-IsSolid n)

IsSolid-reverse_aux : (s t : Bytes) → IsSolid s → IsSolid t → IsSolid (reverse_aux s t)
IsSolid-reverse_aux [] t f g = g
IsSolid-reverse_aux (c ∷ s) t f g = IsSolid-reverse_aux s (c ∷ t) f.1 (f.0, g)

IsWord-reverse : (s : Bytes) → IsWord s → IsWord (reverse s)
IsWord-reverse s w =
    (λ e. w.0 (sym (reverse-reverse s) ∙ ap reverse e), IsSolid-reverse_aux s [] w.1 tt)

-- A text that ends with a word keeps its end.
rtrim-IsWord : (s w : Bytes) → IsWord w → rtrim (s ++ w) ≡ s ++ w
unfolding rtrim
rtrim-IsWord s w h =
    ap (λ r. reverse (ltrim r)) (reverse-append s w)
    ∙ ap reverse
        (ltrim-IsWord (reverse w) (reverse s) (IsWord-reverse w h) ∙ sym (reverse-append s w))
    ∙ reverse-reverse (s ++ w)

pub trim-IsWord : (s w : Bytes) → IsWord w → ltrim (s ++ w) ≡ s ++ w → trim (s ++ w) ≡ s ++ w
unfolding trim
trim-IsWord s w h e = ap ltrim (rtrim-IsWord s w h) ∙ e

pub ltrim-IsWord_end : (s : Bytes) → IsWord s → ltrim s ≡ s
ltrim-IsWord_end s w = ap ltrim (sym (append-nil s)) ∙ ltrim-IsWord s [] w ∙ append-nil s
