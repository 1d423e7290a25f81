-- ===== src/Sdp/Header/Lines.antt =====
-- Lines of a session description that are printed and parsed again: versions, texts and
-- times.
use sipster.Base.{
  ◌++◌, ℕ, ◌<◌, ◌≤◌, ◌^◌, [], ◌∷◌, some, ◌≡◌, ◌≢◌, refl, sym, ap, ◌∙◌, arith, ok, Bytes, length,
  take_all, length-append, append-nil,
}
use sipster.Text.{at, next_token, ltrim, decimal, snprintf, strncpy_bounded}
use sipster.Text.Token.Split.{IsFree, next_token_field, get_rest-remaining}
use sipster.Text.Word.{IsWord, All-append, IsSolid-IsFree_line, ltrim-IsWord, decimal-IsWord}
use sipster.Text.Number.RoundTrip.{
  decimal-IsFree, atoi-decimal, atol-decimal, length-decimal, length-decimal_lt,
}
use sipster.Sip.Message.Parse.{crlf}
use sipster.Sip.Header.Parse.Fields.{c_str_fits}
use sipster.Sdp.Types.{
  SdpHeaderType, version, time_active, Timing, SdpContent, version_content, text_content,
  timing_content, SdpHeader,
}
use sipster.Sdp.Header.{
  prototype_at, find_sdp_prototype, sdp_header_prototypes, parse_sdp_with, parse_sdp_header,
  with_type, parse_sdp_content, string_codec, timing_parse,
}
use sipster.Sdp.Header.Print.{lettered, print_sdp_content, print_sdp_header, timing_text}

find_sdp_prototype-letter :
    (t : SdpHeaderType)
    → find_sdp_prototype ((prototype_at t).letter ∷ []) sdp_header_prototypes
      ≡ some (prototype_at t)
unfolding find_sdp_prototype
find_sdp_prototype-letter version = refl
find_sdp_prototype-letter _ = refl

letter-IsFree : (t : SdpHeaderType) → IsFree (b'=' ∷ []) ((prototype_at t).letter ∷ [])
letter-IsFree version = (refl, tt)
letter-IsFree _ = (refl, tt)

letter-IsFree_line : (t : SdpHeaderType) → IsFree crlf ((prototype_at t).letter ∷ b'=' ∷ [])
letter-IsFree_line version = (refl, (refl, tt))
letter-IsFree_line _ = (refl, (refl, tt))

-- The line of a header goes to the parse function of the letter's entry, with the text behind `=`.
parse_sdp_header-lettered :
    (t : SdpHeaderType) (text : Bytes)
    → ltrim text ≡ text
    → parse_sdp_header (lettered (prototype_at t).letter text)
      ≡ parse_sdp_with (some (prototype_at t)) text
unfolding parse_sdp_header
parse_sdp_header-lettered t text trimmed =
    let l = (prototype_at t).letter in
    let line = lettered l text in
    let first = next_token_field line (l ∷ []) text b'=' (at 0) refl (letter-IsFree t) in
    let rest = get_rest-remaining line (next_token line (b'=' ∷ []) (at 0)).1 in
    rw (first.0, rest.0, first.1, trimmed, find_sdp_prototype-letter t) refl

-- A header and its line: the one is printed as the other, and parsed from it.
abbrev pub IsLine : SdpHeader → Bytes → Type 0
IsLine h line =
    (print_sdp_header h ≡ ok (some line))
    × (parse_sdp_header line ≡ ok (some h))
    × (line ≢ [])
    × IsFree crlf line

abbrev pub HasLine : SdpHeader → Type 0
HasLine h = (line : Bytes) × IsLine h line

prototype_at-header_type : (t : SdpHeaderType) → (prototype_at t).header_type ≡ t
prototype_at-header_type version = refl
prototype_at-header_type _ = refl

pub line_back :
    (t : SdpHeaderType) (c : SdpContent) (text : Bytes)
    → print_sdp_content (prototype_at t).codec (prototype_at t).letter c
      ≡ ok (some (lettered (prototype_at t).letter text))
    → ltrim text ≡ text
    → parse_sdp_content (prototype_at t).codec text ≡ ok (some c)
    → IsFree crlf text
    → HasLine (record { header_type = t; content = c })
unfolding print_sdp_header parse_sdp_with with_type
line_back t c text printed trimmed parsed free =
    let parsed' : parse_sdp_header (lettered (prototype_at t).letter text)
        ≡ ok (some (record { header_type = t; content = c })) =
      parse_sdp_header-lettered t text trimmed ∙ rw (parsed, prototype_at-header_type t) refl in
    let free' : IsFree crlf (lettered (prototype_at t).letter text) =
      All-append _ ((prototype_at t).letter ∷ b'=' ∷ []) text (letter-IsFree_line t) free in
    let there : lettered (prototype_at t).letter text ≢ [] = λ e. cc in
    let back : IsLine (record { header_type = t; content = c })
        (lettered (prototype_at t).letter text) =
      (printed, parsed', there, free') in
    (lettered (prototype_at t).letter text, back)

pub version-HasLine :
    (n : ℕ) → n < 2 ^ 31 → HasLine (record { header_type = version; content = version_content n })
unfolding print_sdp_content parse_sdp_content snprintf
version-HasLine n small =
    let whole =
      take_all 19 (lettered b'v' (decimal n))
        (omega (arith, length-decimal_lt 9 n (omega arith))) in
    line_back version (version_content n) (decimal n) (ground (arith, whole))
      (ap ltrim (sym (append-nil (decimal n)))
        ∙ ltrim-IsWord (decimal n) [] (decimal-IsWord n)
        ∙ append-nil (decimal n))
      (rw (atoi-decimal n (omega arith)) refl)
      (IsSolid-IsFree_line (decimal n) (decimal-IsWord n).1)

pub text-HasLine :
    (t : SdpHeaderType) (text : Bytes)
    → (prototype_at t).codec ≡ string_codec
    → ltrim text ≡ text
    → IsFree crlf text
    → length text ≤ 325
    → HasLine (record { header_type = t; content = text_content text })
unfolding print_sdp_content parse_sdp_content snprintf strncpy_bounded
text-HasLine t text codec trimmed free fits =
    line_back t (text_content text) text
      (rw
        (
          codec,
          c_str_fits 400 text (omega arith),
          take_all 327 (lettered (prototype_at t).letter text) (omega arith),
        )
        refl)
      trimmed (rw (codec, (get_rest-remaining text (at 0)).0, take_all 399 text (omega arith)) refl)
      free

pub timing-HasLine :
    (t : Timing)
    → t.start < 2 ^ 63
    → t.stop < 2 ^ 63
    → HasLine (record { header_type = time_active; content = timing_content t })
unfolding print_sdp_content parse_sdp_content timing_parse snprintf
timing-HasLine t h k =
    let text = timing_text t in
    let whole = take_all 49 (lettered b't' text) (
      omega (
        arith,
        length-append (decimal t.start) (b' ' ∷ decimal t.stop),
        length-decimal t.start,
        length-decimal t.stop,
      )) in
    let first =
      next_token_field text (decimal t.start) (decimal t.stop) b' ' (at 0) refl
        (decimal-IsFree t.start b' ' refl) in
    let rest = get_rest-remaining text (next_token text (b' ' ∷ []) (at 0)).1 in
    line_back time_active (timing_content t) text (rw whole refl)
      (ltrim-IsWord (decimal t.start) _ (decimal-IsWord t.start))
      (rw (first.0, rest.0, first.1, atol-decimal t.start h, atol-decimal t.stop k) refl)
      (All-append _ (decimal t.start) _ (IsSolid-IsFree_line _ (decimal-IsWord t.start).1)
        (refl, IsSolid-IsFree_line _ (decimal-IsWord t.stop).1))

-- A word of at most so many bytes.
abbrev pub IsField : ℕ → Bytes → Type 0
IsField k s = IsWord s × (length s ≤ k)

-- Words with blanks between them hold no end of a line.
pub spaced-IsFree_line : (s t : Bytes) → IsWord s → IsFree crlf t → IsFree crlf (s ++ b' ' ∷ t)
spaced-IsFree_line s t w f = All-append _ s _ (IsSolid-IsFree_line s w.1) (refl, f)
