-- ===== src/Sip/Header/Parse/RoundTrip.antt =====
-- Header lines that are printed and parsed again.
use sipster.Base.{
  ◌-◌, ℕ, ◌<◌, ◌≤◌, ◌^◌, [], ◌∷◌, ◌++◌, some, ◌≡◌, ◌≢◌, ◌⊎◌, inl, inr, refl, sym, ap, ◌∙◌, arith,
  ok, Bytes, length, get_elem?, take_all, length-append, append-nil,
}
use sipster.Text.{at, next_token, ltrim, decimal, snprintf}
use sipster.Text.Token.Split.{IsFree, next_token_field, get_rest-remaining}
use sipster.Text.Number.RoundTrip.{length-decimal, ltrim-decimal}
use sipster.Sip.Enums.{Method, method_none, method_name, HeaderId, header_index}
use sipster.Sip.Inet.{Resolver}
use sipster.Sip.Header.{
  Content, cseq_content, string_content, integer_content, Header, HeaderMap, ci_codec, string_codec,
  uint_codec, header_prototypes, find_prototype,
}
use sipster.Sip.Header.Parse.{parse_header, parse_with, with_id, parse_content}
use sipster.Sip.Header.Parse.Fields.{
  text_of, line_capacity, IsField, parse_content-text_of, print_content-text_of,
}
use sipster.Sip.Header.Print.{labelled, print_content, print_header}

-- What every entry of the table satisfies: it stands at its id, is found by its long name first, and
-- that name has no colon and fits in its array.
abbrev pub IsEntry : HeaderId → HeaderMap → Type 0
IsEntry i m =
    (find_prototype m.header_name header_prototypes ≡ some m)
    × (m.header_id ≡ i)
    × IsFree (b':' ∷ []) m.header_name
    × (length m.header_name ≤ 19)

get_elem?-IsEntry :
    (i : HeaderId)
    → (m : HeaderMap) × (get_elem? header_prototypes (header_index i) ≡ some m) × IsEntry i m
unfolding find_prototype
get_elem?-IsEntry HeaderId.to = (_, refl, (refl, refl, ground arith, omega arith))
get_elem?-IsEntry _ = (_, refl, (refl, refl, ground arith, omega arith))

pub header_prototypes-IsEntry :
    (i : HeaderId) (m : HeaderMap)
    → get_elem? header_prototypes (header_index i) ≡ some m
    → IsEntry i m
header_prototypes-IsEntry i m e =
    let (n, there, v) = get_elem?-IsEntry i in let same : n ≡ m = cc in rw same at v

-- The line of an entry goes to the entry's parse function with the text behind `: `.
parse_header-labelled :
    (g : Resolver) (i : HeaderId) (m : HeaderMap) (text : Bytes)
    → IsEntry i m
    → ltrim text ≡ text
    → parse_header g (labelled m.header_name text) ≡ parse_with g (some m) text
unfolding parse_header ltrim
parse_header-labelled g i m text (found, id, free, fits) trimmed =
    let line = labelled m.header_name text in
    let first = next_token_field line m.header_name (b' ' ∷ text) b':' (at 0) refl free in
    let rest = get_rest-remaining line (next_token line (b':' ∷ []) (at 0)).1 in
    rw (first.0, rest.0, first.1, found, trimmed) refl

-- The line that a header prints as is parsed as that header.
abbrev pub IsReadBack : Resolver → Header → Type 0
IsReadBack g h =
    (line : Bytes) × (print_header h ≡ ok (some line)) × (parse_header g line ≡ ok (some h))

-- A line that its codec prints whole and parses back is the line of its header.
pub read_back_line :
    (g : Resolver) (i : HeaderId) (m : HeaderMap) (c : Content) (text : Bytes) (size : ℕ)
    → get_elem? header_prototypes (header_index i) ≡ some m
    → print_content m.codec m.header_name c
      ≡ ok (some (snprintf size (labelled m.header_name text)))
    → length (labelled m.header_name text) < size
    → ltrim text ≡ text
    → parse_content g m.codec text ≡ ok (some c)
    → let line = labelled m.header_name text in
      let h : Header = record { header_id = i; content = c } in
      (print_header h ≡ ok (some line)) × (parse_header g line ≡ ok (some h))
unfolding print_header parse_with with_id snprintf
read_back_line g i m c text size there printed fits trimmed parsed =
    let v = header_prototypes-IsEntry i m there in
    (
      rw (there, printed, take_all (size - 1) (labelled m.header_name text) (omega (arith, fits)))
          refl,
      parse_header-labelled g i m text v trimmed ∙ rw (parsed, v.1) refl,
    )

read_back :
    (g : Resolver) (i : HeaderId) (m : HeaderMap) (c : Content)
    → get_elem? header_prototypes (header_index i) ≡ some m
    → IsField g m.codec c
    → length (labelled m.header_name (text_of m.codec c)) < line_capacity m.codec
    → ltrim (text_of m.codec c) ≡ text_of m.codec c
    → IsReadBack g (record { header_id = i; content = c })
read_back g i m c there fields fits trimmed =
    let text = text_of m.codec c in
    let small : length text < line_capacity m.codec =
      omega (arith, fits, length-append m.header_name (b':' ∷ b' ' ∷ text)) in
    let back =
      read_back_line g i m c text (line_capacity m.codec) there
        (print_content-text_of g m.codec c m.header_name fields small) fits trimmed
        (parse_content-text_of g m.codec c fields small) in
    (labelled m.header_name text, back.0, back.1)

labelled-fits :
    (i : HeaderId) (m : HeaderMap) (text : Bytes)
    → get_elem? header_prototypes (header_index i) ≡ some m
    → length text ≤ 38
    → length (labelled m.header_name text) < 60
labelled-fits i m text there h =
    let v = header_prototypes-IsEntry i m there in
    omega (arith, length-append m.header_name (b':' ∷ b' ' ∷ text), v.3)

-- A header with a number below 2 ^ 32 that the table prints as a number, Content-Length and
-- Max-Forwards, is parsed back from its line.
pub print_header_integer-IsReadBack :
    (g : Resolver) (i : HeaderId) (m : HeaderMap) (n : ℕ)
    → get_elem? header_prototypes (header_index i) ≡ some m
    → m.codec ≡ uint_codec
    → n < 2 ^ 32
    → IsReadBack g (record { header_id = i; content = integer_content n })
print_header_integer-IsReadBack g i m n there codec small =
    read_back g i m (integer_content n) there (rw codec small)
      (rw codec (labelled-fits i m (decimal n) there (omega (arith, length-decimal n))))
      (rw codec
        (ap ltrim (sym (append-nil (decimal n))) ∙ ltrim-decimal n [] ∙ append-nil (decimal n)))

-- A header of a plain text, or a Call-ID, is parsed back from its line if the text starts with no blank
-- and the line has at most 59 bytes.
pub print_header_string-IsReadBack :
    (g : Resolver) (i : HeaderId) (m : HeaderMap) (text : Bytes)
    → get_elem? header_prototypes (header_index i) ≡ some m
    → (m.codec ≡ string_codec) ⊎ (m.codec ≡ ci_codec)
    → ltrim text ≡ text
    → length (labelled m.header_name text) ≤ 59
    → IsReadBack g (record { header_id = i; content = string_content text })
print_header_string-IsReadBack g i m text there (inl codec) trimmed fits =
    read_back g i m (string_content text) there (rw codec tt) (rw codec (omega (arith, fits)))
      (rw codec trimmed)
print_header_string-IsReadBack g i m text there (inr codec) trimmed fits =
    read_back g i m (string_content text) there (rw codec tt) (rw codec (omega (arith, fits)))
      (rw codec trimmed)

method_name_fits : (method : Method) → length (method_name method) ≤ 9
method_name_fits method_none = omega arith
method_name_fits _ = omega arith

-- A CSeq header of a number below 2 ^ 63 and a method of the table is parsed back from its line.
pub print_header_cseq-IsReadBack :
    (g : Resolver) (n : ℕ) (method : Method)
    → n < 2 ^ 63
    → method ≢ method_none
    → IsReadBack g (record {
      header_id = HeaderId.cseq;
      content = cseq_content n (some (method_name method)) method;
    })
print_header_cseq-IsReadBack g n method small known =
    let text = decimal n ++ b' ' ∷ method_name method in
    read_back g HeaderId.cseq _ (cseq_content n (some (method_name method)) method) refl
      (small, known, refl)
      (labelled-fits HeaderId.cseq _ text refl (
        omega (
          arith,
          length-append (decimal n) (b' ' ∷ method_name method),
          length-decimal n,
          method_name_fits method,
        )))
      (ltrim-decimal n (b' ' ∷ method_name method))
