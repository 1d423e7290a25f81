-- ===== src/Sip/Header/Parse/Printable.antt =====
-- Which headers have a line that is parsed back, for each kind of content.
use sipster.Base.{◌<◌, ◌≤◌, List, [], ◌∷◌, some, ◌≡◌, arith, length, length-append, get_elem?, All}
use sipster.Text.{ltrim}
use sipster.Text.Token.Split.{IsFree}
use sipster.Sip.Enums.{header_index}
use sipster.Sip.Inet.{Resolver}
use sipster.Sip.Header.{Header, HeaderMap, header_prototypes}
use sipster.Sip.Header.Parse.Lines.{HasLine, has_line}
use sipster.Sip.Header.Print.{labelled}
use sipster.Sip.Message.Parse.{crlf}
use sipster.Sip.Header.Parse.Fields.{
  text_of, line_capacity, IsField, parse_content-text_of, print_content-text_of,
}

-- A header with an entry in the table, with the fields that its text gives, of which no text begins
-- with a blank or holds an end of line, and with a line that fits in its buffer and in its share of
-- a message's.
pub record IsPrinted (g : Resolver) (h : Header) : Type 0 where
  pub entry : HeaderMap
  pub there : get_elem? header_prototypes (header_index h.header_id) ≡ some entry
  pub fields : IsField g entry.codec h.content
  pub trimmed : ltrim (text_of entry.codec h.content) ≡ text_of entry.codec h.content
  pub free : IsFree crlf (text_of entry.codec h.content)
  pub fits :
      length (labelled entry.header_name (text_of entry.codec h.content))
      < line_capacity entry.codec
  pub short : length (labelled entry.header_name (text_of entry.codec h.content)) ≤ 198

-- A header with an entry in the table, with the fields that its text gives, of which the text does not
-- begin with a blank and holds no end of line, and whose line fits, is printed as one line, and parsed
-- back from it: the line is not empty, holds no end of line and has at most 198 bytes.
pub print_header-HasLine : (g : Resolver) (h : Header) → IsPrinted g h → HasLine g h
print_header-HasLine g h v =
    let m = v.entry in
    let text = text_of m.codec h.content in
    let small : length text < line_capacity m.codec =
      omega (arith, v.fits, length-append m.header_name (b':' ∷ b' ' ∷ text)) in
    has_line g h.header_id m h.content text (line_capacity m.codec) v.there
      (print_content-text_of g m.codec h.content m.header_name v.fields small) v.fits v.short
      v.trimmed v.free (parse_content-text_of g m.codec h.content v.fields small)

pub All-IsPrinted : (g : Resolver) (hs : List Header) → All (IsPrinted g) hs → All (HasLine g) hs
All-IsPrinted g [] w = tt
All-IsPrinted g (h ∷ hs) w = (print_header-HasLine g h w.0, All-IsPrinted g hs w.1)
