-- ===== src/Sip/Header/Parse/Lines.antt =====
-- Header lines as messages hold them: printed, ended by CR LF, and parsed again.
use sipster.Sip.Header.{Content, HeaderMap, header_prototypes}
use sipster.Sip.Enums.{HeaderId, header_index}
use sipster.Text.{snprintf, ltrim}
use sipster.Sip.Parameter.RoundTrip.{IsFree-append}
use sipster.Sip.Header.Parse.{parse_content}
use sipster.Sip.Header.Parse.RoundTrip.{read_back_line}
use sipster.Sip.Header.Print.{print_content, labelled}
use sipster.Base.{
  ◌<◌, get_elem?, ℕ, refl, length-append, ◌++◌, arith, ◌∷◌, ◌*◌, All, List, ◌≤◌, [], some, ◌≡◌, ok,
  false, Bytes, length, equal,
}
use sipster.Text.Token.Split.{IsFree}
use sipster.Sip.Inet.{Resolver}
use sipster.Sip.Header.{Header}
use sipster.Sip.Header.Parse.{parse_header}
use sipster.Sip.Header.Print.{print_header}
use sipster.Sip.Message.Parse.{crlf}

-- The header has a line that is parsed back as that header, is not empty, holds no end of line, and
-- has no more bytes than its share of a message's buffer.
abbrev pub HasLine : Resolver → Header → Type 0
HasLine g h =
    (line : Bytes) × (print_header h ≡ ok (some line))
    × (parse_header g line ≡ ok (some h))
    × IsFree crlf line
    × (equal line [] ≡ false)
    × (length line ≤ 198)

-- The header lines of a message, each with its end.
abbrev pub lines_text : (g : Resolver) (hs : List Header) → All (HasLine g) hs → Bytes
lines_text g [] w = []
lines_text g (h ∷ hs) w = w.0.0 ++ (crlf ++ lines_text g hs w.1)

pub length-lines_text :
    (g : Resolver) (hs : List Header) (w : All (HasLine g) hs)
    → length (lines_text g hs w) ≤ 200 * length hs
length-lines_text g [] w = omega arith
length-lines_text g (h ∷ hs) w =
    omega
      (arith, length-append w.0.0 (crlf ++ lines_text g hs w.1), length-lines_text g hs w.1, w.0.5)

pub length-le-lines_text :
    (g : Resolver) (hs : List Header) (w : All (HasLine g) hs)
    → length hs ≤ length (lines_text g hs w)
length-le-lines_text g [] w = omega arith
length-le-lines_text g (h ∷ hs) w =
    omega (arith, length-append w.0.0 (crlf ++ lines_text g hs w.1), length-le-lines_text g hs w.1)

header_name-IsFree :
    (i : HeaderId) (m : HeaderMap)
    → get_elem? header_prototypes (header_index i) ≡ some m
    → IsFree crlf m.header_name
header_name-IsFree i m there =
    let (n, e, v) = entry-IsFree i in let same : n ≡ m = cc in rw same at v
  where
    entry-IsFree :
        (i : HeaderId)
        → (m : HeaderMap) × (get_elem? header_prototypes (header_index i) ≡ some m)
          × IsFree crlf m.header_name
    entry-IsFree HeaderId.to = (_, refl, ground arith)
    entry-IsFree _ = (_, refl, ground arith)

-- The line of a text without an end of line.
pub has_line :
    (g : Resolver) (i : HeaderId) (m : HeaderMap) (c : Content) (text : Bytes) (size : ℕ)
    → get_elem? header_prototypes (header_index i) ≡ some m
    → print_content m.codec m.header_name c
      ≡ ok (some (snprintf size (labelled m.header_name text)))
    → length (labelled m.header_name text) < size
    → length (labelled m.header_name text) ≤ 198
    → ltrim text ≡ text
    → IsFree crlf text
    → parse_content g m.codec text ≡ ok (some c)
    → HasLine g (record { header_id = i; content = c })
has_line g i m c text size there printed fits short trimmed free parsed =
    let back = read_back_line g i m c text size there printed fits trimmed parsed in
    (
      labelled m.header_name text,
      back.0,
      back.1,
      IsFree-append crlf m.header_name (b':' ∷ b' ' ∷ text) (header_name-IsFree i m there)
          (refl, (refl, free)),
      not_empty m.header_name,
      short,
    )
  where
    not_empty : (name : Bytes) → equal (labelled name text) [] ≡ false
    not_empty [] = refl
    not_empty (x ∷ name) = refl
