-- ===== src/Sdp/Header/Errors.antt =====
-- What the lines and the copies of session headers lose.
use sipster.Base.{
  ℕ, ◌+◌, ◌/◌, ◌%◌, ◌<◌, ◌≤◌, ◌==◌, ◌^◌, List, [], ◌∷◌, some, ◌≡◌, refl, sym, ap, ◌∙◌, arith, ok,
  Exec, ◌>>=◌, Bytes, All, take, take_all, ltb, if◌then◌else◌, Bool-cases, inl, inr, false,
}
use sipster.Text.{digits, decimal, snprintf}
use sipster.Text.Number.RoundTrip.{length-decimal_lt}
use sipster.Sdp.Types.{media, media_content, Media, MediaType, SdpHeader}
use sipster.Sdp.Header.{parse_sdp_header}
use sipster.Sdp.Header.Print.{
  later_pts_text, pts_text, print_media, print_sdp_header, print_sdp_content,
}
use sipster.Sdp.Header.Payloads.{blank_decimals, decimals, pts_text-IsPts, pts_buffer-fits}
use sipster.Sdp.Header.MediaLine.{IsMedia, media-HasLine}

decimal_two : (n : ℕ) → 10 ≤ n → n < 100 → decimal n ≡ (b'0' + n / 10) ∷ (b'0' + n % 10) ∷ []
unfolding decimal digits
decimal_two n h k =
    let a : n == 0 ≡ false = ground arith in
    let b : n / 10 == 0 ≡ false = ground arith in
    let c : n / 10 / 10 ≡ 0 = omega (arith, k) in
    let d : n / 10 % 10 ≡ n / 10 = omega (arith, k) in rw (a, b, c, d) refl

decimal_three :
    (n : ℕ)
    → 100 ≤ n
    → n < 1000
    → decimal n ≡ (b'0' + n / 10 / 10) ∷ (b'0' + n / 10 % 10) ∷ (b'0' + n % 10) ∷ []
unfolding decimal digits
decimal_three n h k =
    let a : n == 0 ≡ false = ground arith in
    let b : n / 10 == 0 ≡ false = ground arith in
    let b' : n / 10 / 10 == 0 ≡ false = ground arith in
    let c : n / 10 / 10 / 10 ≡ 0 = omega (arith, k) in
    let d : n / 10 / 10 % 10 ≡ n / 10 / 10 = omega (arith, k) in rw (a, b, b', c, d) refl

-- The last digit of a number of three digits is cut off.
take-decimal : (n : ℕ) → 100 ≤ n → n < 1000 → take 2 (decimal n) ≡ decimal (n / 10)
take-decimal n h k = rw (decimal_three n h k, decimal_two (n / 10) (omega arith) (omega arith)) refl

abbrev pub cut_pt : ℕ → ℕ
cut_pt pt = if ltb pt 100 then pt else pt / 10

abbrev pub cut_later : List ℕ → List ℕ
cut_later [] = []
cut_later (q ∷ qs) = cut_pt q ∷ cut_later qs

-- What a media line leaves of its payload types.
abbrev pub cut_pts : List ℕ → List ℕ
cut_pts [] = []
cut_pts (pt ∷ pts) = pt ∷ cut_later pts

take-decimal-cut_pt : (q : ℕ) → q < 2 ^ 8 → take 2 (decimal q) ≡ decimal (cut_pt q)
take-decimal-cut_pt q byte = elim (Bool-cases (ltb q 100)) [
  | inl two ↦
      rw two (take_all 2 (decimal q) (omega (arith, length-decimal_lt 1 q (ground (arith, two)))))
  | inr three ↦ rw three (take-decimal q (ground (arith, three)) (omega (arith, byte)))
]

later_pts_text-cut_pt :
    (qs : List ℕ) → All (λ q. q < 2 ^ 8) qs → later_pts_text qs ≡ blank_decimals (cut_later qs)
unfolding snprintf
later_pts_text-cut_pt [] w = refl
later_pts_text-cut_pt (q ∷ qs) w = rw (take-decimal-cut_pt q w.0, later_pts_text-cut_pt qs w.1) refl

pts_text-cut_pts : (pts : List ℕ) → All (λ q. q < 2 ^ 8) pts → pts_text pts ≡ decimals (cut_pts pts)
unfolding snprintf
pts_text-cut_pts [] w = refl
pts_text-cut_pts (pt ∷ qs) w =
    rw
      (
        take_all 3 (decimal pt) (length-decimal_lt 2 pt (omega (arith, w.0))),
        later_pts_text-cut_pt qs w.1,
      )
      refl

abbrev media_header : Media → SdpHeader
media_header m = record { header_type = media; content = media_content m }

-- A media header with payload types below 2 ^ 8, of which each of three digits that does not stand first
-- loses its last digit: the four bytes that the print has for it hold the blank, two digits and the end.
-- If the header with these payload types is one that its line can hold, then the line that is printed
-- for the header is parsed as the header with these payload types.
pub parse_sdp_header-print_sdp_header_cut :
    (t : MediaType) (m : Media)
    → All (λ pt. pt < 2 ^ 8) m.pts
    → IsMedia t (record m { pts = cut_pts m.pts })
    → (line : Bytes) × (print_sdp_header (media_header m) ≡ ok (some line))
      × (parse_sdp_header line ≡ ok (some (media_header (record m { pts = cut_pts m.pts }))))
unfolding print_sdp_header print_sdp_content print_media
parse_sdp_header-print_sdp_header_cut t m bytes w =
    let m' = record m { pts = cut_pts m.pts } in
    let (line, (printed, parsed, some_byte, free)) = media-HasLine t m' w in
    let same : pts_text m.pts ≡ pts_text (cut_pts m.pts) =
      pts_text-cut_pts m.pts bytes ∙ sym (pts_text-IsPts (cut_pts m.pts) w.6) in
    let whole : print_media b'm' m ≡ print_media b'm' m' =
      rw (pts_buffer-fits m.pts, pts_buffer-fits (cut_pts m.pts), same) refl in
    (line, ap (λ (o : Exec Bytes). o >>= λ (l : Bytes). ok (some l)) whole ∙ printed, parsed)
