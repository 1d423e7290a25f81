-- ===== src/Sdp/Header/MediaLine.antt =====
-- Media lines that are printed and parsed again.
use sipster.Sip.Message.Parse.{crlf}
use sipster.Sip.Header.Parse.Fields.{c_str_fits, strncpy_all_fits}
use sipster.Base.{
  if◌then◌else◌, ◌⊎◌, ℕ, suc, ◌<◌, ◌≤◌, ◌^◌, List, [], ◌∷◌, ◌++◌, some, ◌≡◌, ◌≢◌, inl, inr, refl,
  sym, arith, ok, Bytes, length, take_all, equal, Bool-cases, ltb,
}
use sipster.Text.{atoi, next_token, decimal, snprintf}
use sipster.Text.Token.Split.{IsFree, get_rest-remaining, next_token_field, next_token_last}
use sipster.Text.Word.{
  IsSolid-IsFree_line, ltrim-IsWord, decimal-IsWord, All-append, IsSolid-IsFree_blank, IsSolid,
  IsWord, decimal-ne,
}
use sipster.Text.Number.RoundTrip.{atoi-decimal_short, decimal-IsFree}
use sipster.Sdp.Types.{media_content, media, Media, MediaType, audio}
use sipster.Sdp.Header.{at, media_parse, media_name, media_types, media_type_decode}
use sipster.Sdp.Header.Payloads.{
  IsPts, decimals, equal_apart, pts_loop-decimals, trim-decimals, pts_text-IsPts, pts_buffer-fits,
}
use sipster.Sdp.Header.Lines.{HasLine, line_back, spaced-IsFree_line}
use sipster.Sdp.Header.{parse_sdp_content}
use sipster.Sdp.Header.Print.{print_sdp_content, print_media, port_text, media_text}

media_name-IsWord : (t : MediaType) → IsWord (media_name t)
media_name-IsWord audio = ((λ e. cc), ground arith)
media_name-IsWord _ = ((λ e. cc), ground arith)

media_type_decode-media_name :
    (t : MediaType) → media_type_decode (media_name t) media_types ≡ some t
unfolding media_type_decode
media_type_decode-media_name audio = refl
media_type_decode-media_name _ = refl

-- The port, and the number of ports if there is one.
abbrev port_form : ℕ → ℕ → Bytes
port_form port count = if ltb 1 count then decimal port ++ b'/' ∷ decimal count else decimal port

abbrev pub IsPortCount : ℕ → Type 0
IsPortCount count = (count ≡ 0) ⊎ ((1 < count) × (count < 2 ^ 16))

port_form-IsSolid : (port count : ℕ) → IsSolid (port_form port count)
port_form-IsSolid port count = elim (Bool-cases (ltb 1 count)) [
  | inl many ↦
      rw many
        (All-append _ (decimal port) _ (decimal-IsWord port).1 (refl, (decimal-IsWord count).1))
  | inr one ↦ rw one ((decimal-IsWord port).1)
]

port_parts :
    (port count : ℕ)
    → port < 2 ^ 16
    → IsPortCount count
    → let text = port_form port count in
      let (first, pos) = next_token text (b'/' ∷ []) (at 0) in
      let second = (next_token text (b'/' ∷ []) pos).0 in
      (first ≡ decimal port) × ((if equal second [] then 0 else atoi 16 second) ≡ count)
port_parts port count h (inl z) =
    let text = port_form port count in
    let shown : text ≡ decimal port = rw z refl in
    let free = decimal-IsFree port b'/' refl in
    let first = next_token_last text (decimal port) b'/' (at 0) shown free in
    let second = next_token_last text [] b'/' (next_token text (b'/' ∷ []) (at 0)).1 first.1 tt in
    (first.0, rw second.0 (sym z))
port_parts port count h (inr (many, small)) =
    let text = port_form port count in
    let shown : text ≡ decimal port ++ b'/' ∷ decimal count = ground arith in
    let first =
      next_token_field text (decimal port) (decimal count) b'/' (at 0) shown
        (decimal-IsFree port b'/' refl) in
    let second =
      next_token_last text (decimal count) b'/' (next_token text (b'/' ∷ []) (at 0)).1 first.1
        (decimal-IsFree count b'/' refl) in
    (
      first.0,
      rw (second.0, equal_apart (decimal count) [] (decimal-ne count))
          (atoi-decimal_short count small),
    )

-- A media header of this type that its line can hold.
abbrev pub IsMedia : MediaType → Media → Type 0
IsMedia t m =
    (m.media_type ≡ some t)
    × (m.port < 2 ^ 16)
    × IsPortCount m.port_count
    × (length (port_form m.port m.port_count) ≤ 9)
    × IsWord m.protocol
    × (length m.protocol ≤ 9)
    × IsPts m.pts
    × (length m.pts ≤ 20)
    × (length (media_text (media_name t) m) ≤ 77)

port_text-form :
    (m : Media)
    → length (port_form m.port m.port_count) ≤ 9
    → port_text m.port m.port_count ≡ port_form m.port m.port_count
unfolding snprintf
port_text-form m h = take_all 9 (port_form m.port m.port_count) h

abbrev media_form : MediaType → Media → Bytes
media_form t m =
    media_name t
    ++ b' ' ∷ (port_form m.port m.port_count ++ b' ' ∷ (m.protocol ++ b' ' ∷ decimals m.pts))

media_text-form :
    (t : MediaType) (m : Media) → IsMedia t m → media_text (media_name t) m ≡ media_form t m
media_text-form t m w = rw (port_text-form m w.3, pts_text-IsPts m.pts w.6) refl

media_parse-form : (t : MediaType) (m : Media) → IsMedia t m → media_parse (media_form t m) ≡ ok m
unfolding media_parse
media_parse-form t m (type, port, count, fits, protocol, short, pts, many, line) =
    let text = media_form t m in
    let port_part = port_form m.port m.port_count in
    let r2 = m.protocol ++ b' ' ∷ decimals m.pts in
    let r1 = port_part ++ b' ' ∷ r2 in
    let e1 =
      next_token_field text (media_name t) r1 b' ' (at 0) refl
        (IsSolid-IsFree_blank _ (media_name-IsWord t).1) in
    let p1 = (next_token text (b' ' ∷ []) (at 0)).1 in
    let e2 =
      next_token_field text port_part r2 b' ' p1 e1.1
        (IsSolid-IsFree_blank _ (port_form-IsSolid m.port m.port_count)) in
    let p2 = (next_token text (b' ' ∷ []) p1).1 in
    let e3 =
      next_token_field text m.protocol (decimals m.pts) b' ' p2 e2.1
        (IsSolid-IsFree_blank _ protocol.1) in
    let e4 = get_rest-remaining text (next_token text (b' ' ∷ []) p2).1 in
    let ports = port_parts m.port m.port_count port count in
    let loop =
      pts_loop-decimals (suc (length (decimals m.pts))) (decimals m.pts) (at 0) [] m.pts refl
        (omega arith) pts (omega (arith, many)) in
    rw
      (
        e1.0,
        e2.0,
        e3.0,
        e4.0,
        e3.1,
        trim-decimals m.pts,
        ports.0,
        ports.1,
        loop,
        strncpy_all_fits 10 m.protocol (omega (arith, short)),
        media_type_decode-media_name t,
        atoi-decimal_short m.port port,
        sym type,
      )
      refl

decimals-IsFree_line : (pts : List ℕ) → IsFree crlf (decimals pts)
decimals-IsFree_line [] = tt
decimals-IsFree_line (pt ∷ []) =
    All-append _ (decimal pt) [] (IsSolid-IsFree_line _ (decimal-IsWord pt).1) tt
decimals-IsFree_line (pt ∷ q ∷ pts) =
    spaced-IsFree_line (decimal pt) (decimals (q ∷ pts)) (decimal-IsWord pt)
      (decimals-IsFree_line (q ∷ pts))

port_form-ne : (port count : ℕ) → port_form port count ≢ []
port_form-ne port count = elim (Bool-cases (ltb 1 count)) [
  | inl many ↦ rw many (λ e. decimal-ne port (append-left _ _ e))
  | inr one ↦ rw one (decimal-ne port)
]
  where
    append-left : (s t : Bytes) → s ++ t ≡ [] → s ≡ []
    append-left [] t e = refl
    append-left (c ∷ s) t e = cc

pub media-HasLine :
    (t : MediaType) (m : Media)
    → IsMedia t m
    → HasLine (record { header_type = media; content = media_content m })
unfolding print_sdp_content print_media parse_sdp_content snprintf
media-HasLine t m w =
    let shown = media_text-form t m w in
    let line : length (media_form t m) ≤ 77 = rw shown at w.8 in
    line_back media (media_content m) (media_form t m)
      (rw
        (
          pts_buffer-fits m.pts,
          w.0,
          c_str_fits 10 m.protocol (omega (arith, w.5)),
          shown,
          take_all 77 (media_form t m) line,
        )
        refl)
      (ltrim-IsWord (media_name t) _ (media_name-IsWord t)) (rw (media_parse-form t m w) refl)
      (spaced-IsFree_line _ _ (media_name-IsWord t) (
        spaced-IsFree_line _ _
          (port_form-ne m.port m.port_count, port_form-IsSolid m.port m.port_count)
          (spaced-IsFree_line _ _ w.4 (decimals-IsFree_line m.pts))))
