-- ===== src/Sdp/Header/Payloads.antt =====
-- The payload types of a media line, printed and parsed again.
use sipster.Sip.Header.Parse.Fields.{strncpy_all_fits}
use sipster.Base.{
  length-take, take, ◌*◌, ℕ, zero, suc, ◌+◌, ◌<◌, ◌≤◌, ◌^◌, List, [], ◌∷◌, ◌++◌, ◌≡◌, ◌≢◌, inl, inr,
  refl, sym, ap, ◌∙◌, arith, ok, Bytes, length, All, take_all, length-append, append-nil,
  append_assoc, true, false, equal, Bool-cases, equal_iff, ltb,
}
use sipster.Text.{ltrim, trim, Position, next_token, decimal, snprintf}
use sipster.Text.Token.Split.{remaining, next_token_field, next_token_last}
use sipster.Text.Word.{ltrim-IsWord, trim-IsWord, decimal-IsWord, IsWord, decimal-ne}
use sipster.Text.Number.RoundTrip.{decimal-IsFree, atoi-decimal_byte, length-decimal_lt}
use sipster.Sdp.Header.{pts_loop}
use sipster.Sdp.Header.Print.{pts_buffer, later_pts_text, pts_text}

-- Payload types behind the first: two digits fit behind the blank.
abbrev pub IsLater : List ℕ → Type 0
IsLater = All (λ pt. pt < 100)

abbrev pub IsPts : List ℕ → Type 0
IsPts [] = Unit
IsPts (pt ∷ pts) = (pt < 2 ^ 8) × IsLater pts

abbrev pub blank_decimals : List ℕ → Bytes
blank_decimals [] = []
blank_decimals (pt ∷ pts) = b' ' ∷ (decimal pt ++ blank_decimals pts)

abbrev pub decimals : List ℕ → Bytes
decimals [] = []
decimals (pt ∷ pts) = decimal pt ++ blank_decimals pts

later_pts_text-IsLater : (pts : List ℕ) → IsLater pts → later_pts_text pts ≡ blank_decimals pts
unfolding snprintf
later_pts_text-IsLater [] h = refl
later_pts_text-IsLater (pt ∷ pts) h =
    rw
      (
        take_all 2 (decimal pt) (omega (arith, length-decimal_lt 1 pt h.0)),
        later_pts_text-IsLater pts h.1,
      )
      refl

pub pts_text-IsPts : (pts : List ℕ) → IsPts pts → pts_text pts ≡ decimals pts
unfolding snprintf
pts_text-IsPts [] h = refl
pts_text-IsPts (pt ∷ pts) h =
    rw
      (
        take_all 3 (decimal pt) (length-decimal_lt 2 pt (omega (arith, h.0))),
        later_pts_text-IsLater pts h.1,
      )
      refl

-- A round of the loop takes one payload type.
pt_field :
    (input : Bytes) (p : Position) (pt : ℕ) (pts : List ℕ)
    → remaining input p ≡ decimals (pt ∷ pts)
    → ((next_token input (b' ' ∷ []) p).0 ≡ decimal pt)
      × (remaining input (next_token input (b' ' ∷ []) p).1 ≡ decimals pts)
pt_field input p pt [] e =
    next_token_last input (decimal pt) b' ' p (e ∙ append-nil (decimal pt))
      (decimal-IsFree pt b' ' refl)
pt_field input p pt (q ∷ pts) e =
    next_token_field input (decimal pt) (decimals (q ∷ pts)) b' ' p e (decimal-IsFree pt b' ' refl)

pub equal_apart : (s t : Bytes) → s ≢ t → equal s t ≡ false
equal_apart s t ne = elim (Bool-cases (equal s t)) [
  | inl e ↦ absurd (ne ((equal_iff s t).0 e))
  | inr e ↦ e
]

IsPts-tail : (pt : ℕ) (pts : List ℕ) → IsPts (pt ∷ pts) → IsPts pts
IsPts-tail pt [] h = tt
IsPts-tail pt (q ∷ pts) h = (omega (arith, h.1.0), h.1.1)

length-decimals : (pt : ℕ) (pts : List ℕ) → length (decimals pts) < length (decimals (pt ∷ pts))
length-decimals pt [] = there (decimal pt) (decimal-ne pt)
  where
    there : (s : Bytes) → s ≢ [] → 0 < length (s ++ [])
    there [] ne = absurd (ne refl)
    there (c ∷ s) ne = omega arith
length-decimals pt (q ∷ pts) = omega (arith, length-append (decimal pt) (b' ' ∷ decimals (q ∷ pts)))

pub pts_loop-decimals :
    (fuel : ℕ) (input : Bytes) (p : Position) (acc pts : List ℕ)
    → remaining input p ≡ decimals pts
    → length (decimals pts) < fuel
    → IsPts pts
    → length acc + length pts ≤ 20
    → pts_loop fuel input p acc ≡ ok (acc ++ pts)
unfolding pts_loop
pts_loop-decimals zero input p acc pts e f w h = absurd (omega (arith, f))
pts_loop-decimals (suc fuel) input p acc [] e f w h =
    let over = next_token_last input [] b' ' p e tt in rw over.0 (sym (ap ok (append-nil acc)))
pts_loop-decimals (suc fuel) input p acc (pt ∷ pts) e f w h =
    let field = pt_field input p pt pts e in
    let room : ltb (length acc) 20 ≡ true = ground (arith, h) in
    rw (field.0, equal_apart (decimal pt) [] (decimal-ne pt), room, atoi-decimal_byte pt w.0)
      (pts_loop-decimals fuel input _ (acc ++ pt ∷ []) pts field.1
          (omega (arith, f, length-decimals pt pts)) (IsPts-tail pt pts w)
          (omega (arith, h, length-append acc (pt ∷ [])))
        ∙ ap ok (append_assoc acc (pt ∷ []) pts))

-- The payload types end with a word, if there are any.
trim-blank_decimals :
    (s : Bytes) (pts : List ℕ) → IsWord s → trim (s ++ blank_decimals pts) ≡ s ++ blank_decimals pts
trim-blank_decimals s pts w = go [] s pts w (ltrim-IsWord s (blank_decimals pts) w)
  where
    go :
        (front s : Bytes) (pts : List ℕ)
        → IsWord s
        → ltrim (front ++ (s ++ blank_decimals pts)) ≡ front ++ (s ++ blank_decimals pts)
        → trim (front ++ (s ++ blank_decimals pts)) ≡ front ++ (s ++ blank_decimals pts)
    go front s [] w e =
        let n = append-nil s in
        let e' : ltrim (front ++ s) ≡ front ++ s = rw n at e in rw n (trim-IsWord front s w e')
    go front s (pt ∷ pts) w e =
        let more = decimal pt ++ blank_decimals pts in
        let g : front ++ (s ++ b' ' ∷ more) ≡ (front ++ (s ++ b' ' ∷ [])) ++ more = sym (
          append_assoc front (s ++ b' ' ∷ []) more
          ∙ ap (◌++◌ front) (append_assoc s (b' ' ∷ []) more)) in
        let e' : ltrim ((front ++ (s ++ b' ' ∷ [])) ++ more) ≡ (front ++ (s ++ b' ' ∷ [])) ++ more =
          rw g at e in
        rw g (go (front ++ (s ++ b' ' ∷ [])) (decimal pt) pts (decimal-IsWord pt) e')

pub trim-decimals : (pts : List ℕ) → trim (decimals pts) ≡ decimals pts
unfolding trim
trim-decimals [] = refl
trim-decimals (pt ∷ pts) = trim-blank_decimals (decimal pt) pts (decimal-IsWord pt)

length-later_pts_text : (pts : List ℕ) → length (later_pts_text pts) ≤ length pts * 3
unfolding snprintf
length-later_pts_text [] = omega arith
length-later_pts_text (pt ∷ pts) = omega (
  arith,
  length-append (take 3 (b' ' ∷ decimal pt)) (later_pts_text pts),
  length-take 3 (b' ' ∷ decimal pt),
  length-later_pts_text pts,
)

-- The buffer in which `sdp_media_print` builds the text of the payload types, four bytes for each and
-- one for the end, is never written past its end, whatever the payload types are.
pub pts_buffer-fits : (pts : List ℕ) → pts_buffer pts ≡ ok (pts_text pts)
unfolding pts_buffer snprintf
pts_buffer-fits [] = strncpy_all_fits 1 [] (omega arith)
pts_buffer-fits (pt ∷ pts) = strncpy_all_fits _ (pts_text (pt ∷ pts)) (
    omega (
      arith,
      length-append (take 3 (decimal pt)) (later_pts_text pts),
      length-take 3 (decimal pt),
      length-later_pts_text pts,
    ))
