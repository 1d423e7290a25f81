-- ===== src/Sip/Header/Parse/Fields.antt =====
-- The text of a header behind its name: what the codecs print is what they parse.
use sipster.Text.{strncpy_all, c_str}
use sipster.Base.{
  ℕ, ◌<◌, ◌^◌, List, [], ◌∷◌, ◌++◌, Option, some, ◌≡◌, ◌≢◌, refl, arith, ok, Bytes, length,
  take_all, All,
}
use sipster.Text.{at, next_token, decimal, strncpy_bounded, snprintf}
use sipster.Text.Token.Split.{IsFree, next_token_field, next_token_last, get_rest-remaining}
use sipster.Text.Number.RoundTrip.{decimal-IsFree, atoi-decimal, atol-decimal}
use sipster.Sip.Enums.{method_none, method_name}
use sipster.Sip.Inet.{Resolver, inet_address_parse}
use sipster.Sip.Parameter.{Parameter, print_params}
use sipster.Sip.Parameter.RoundTrip.{IsPrintable, parse_header_params-remaining}
use sipster.Sip.Address.{Address, address_parse}
use sipster.Sip.Header.{
  Content, address_content, via_content, cseq_content, type_content, string_content,
  integer_content, Codec, addr_codec, via_codec, cseq_codec, ct_codec, ci_codec, string_codec,
  uint_codec,
}
use sipster.Sip.Header.Parse.{
  parse_content, addr_parse, via_parse, ct_parse, string_parse, ci_parse, uint_parse, cseq_parse,
  cseq_method,
}
use sipster.Sip.Message.Line.RoundTrip.{find_method-method_name, method_name-IsFree}
use sipster.Sip.Header.Print.{labelled, print_content, protocol_and_transport}

pub c_str_fits : (cap : ℕ) (s : Bytes) → length s < cap → c_str cap s ≡ ok s
unfolding c_str
c_str_fits cap s h = ground arith

pub strncpy_all_fits : (cap : ℕ) (s : Bytes) → length s < cap → strncpy_all cap s ≡ ok s
unfolding strncpy_all
strncpy_all_fits cap s h = ground arith

-- What an entry prints behind its name.
abbrev pub text_of : Codec → Content → Bytes
text_of via_codec (via_content address parsed ps) =
    protocol_and_transport ++ (b' ' ∷ (address ++ print_params ps))
text_of _ (address_content address parsed ps) = address ++ print_params ps
text_of _ (type_content ct ps) = ct ++ print_params ps
text_of _ (string_content text) = text
text_of _ (integer_content n) = decimal n
text_of _ (cseq_content n name m) = decimal n ++ (b' ' ∷ method_name m)
text_of _ _ = []

-- The size of the buffer that the line of an entry is printed into.
abbrev pub line_capacity : Codec → ℕ
line_capacity addr_codec = 300
line_capacity via_codec = 300
line_capacity ct_codec = 300
line_capacity _ = 60

-- The fields of a header are those that its text gives: numbers in range, a method of the table,
-- names and values of parameters without separators, an address that is parsed to the parsed
-- address, each within its array.
abbrev pub IsField : Resolver → Codec → Content → Type 0
IsField g addr_codec (address_content address parsed ps) =
    IsFree (b';' ∷ []) address
    × All IsPrintable ps
    × (length address < 100)
    × (address_parse address ≡ ok parsed)
IsField g via_codec (via_content address parsed ps) =
    IsFree (b';' ∷ []) address
    × All IsPrintable ps
    × (length address < 256)
    × (inet_address_parse g address ≡ parsed)
IsField g ct_codec (type_content ct ps) =
    IsFree (b';' ∷ []) ct × All IsPrintable ps × (length ct < 150)
IsField g cseq_codec (cseq_content n name m) =
    (n < 2 ^ 63) × (m ≢ method_none) × (name ≡ some (method_name m))
IsField g ci_codec (string_content text) = Unit
IsField g string_codec (string_content text) = Unit
IsField g uint_codec (integer_content n) = n < 2 ^ 32
IsField g _ _ = ⊥

addr_parse-printed :
    (address : Bytes) (parsed : Option Address) (ps : List Parameter)
    → IsFree (b';' ∷ []) address
    → All IsPrintable ps
    → length address < 100
    → address_parse address ≡ ok parsed
    → addr_parse (address ++ print_params ps) ≡ ok (address_content address parsed ps)
unfolding addr_parse
addr_parse-printed address parsed ps free printable fits there =
    let input = address ++ print_params ps in
    let cut = parse_header_params-remaining input address ps (at 0) refl free printable in
    rw (cut.0, cut.1, strncpy_all_fits 100 address fits, there) refl

ct_parse-printed :
    (ct : Bytes) (ps : List Parameter)
    → IsFree (b';' ∷ []) ct
    → All IsPrintable ps
    → length ct < 150
    → ct_parse (ct ++ print_params ps) ≡ ok (type_content ct ps)
unfolding ct_parse
ct_parse-printed ct ps free printable fits =
    let input = ct ++ print_params ps in
    let cut = parse_header_params-remaining input ct ps (at 0) refl free printable in
    rw (cut.0, cut.1, strncpy_all_fits 150 ct fits) refl

via_parse-printed :
    (g : Resolver) (address : Bytes) (ps : List Parameter)
    → IsFree (b';' ∷ []) address
    → All IsPrintable ps
    → length address < 256
    → via_parse g (protocol_and_transport ++ (b' ' ∷ (address ++ print_params ps)))
      ≡ ok (via_content address (inet_address_parse g address) ps)
unfolding via_parse strncpy_bounded
via_parse-printed g address ps free printable fits =
    let rest = address ++ print_params ps in
    let input = protocol_and_transport ++ (b' ' ∷ rest) in
    let first =
      next_token_field input protocol_and_transport rest b' ' (at 0) refl (ground arith) in
    let cut =
      parse_header_params-remaining input address ps (next_token input (b' ' ∷ []) (at 0)).1 first.1
        free printable in
    rw (cut.0, cut.1, take_all 255 address (omega (arith, fits))) refl

pub parse_content-text_of :
    (g : Resolver) (k : Codec) (c : Content)
    → IsField g k c
    → length (text_of k c) < line_capacity k
    → parse_content g k (text_of k c) ≡ ok (some c)
unfolding parse_content string_parse ci_parse uint_parse cseq_parse cseq_method strncpy_bounded
parse_content-text_of g addr_codec (address_content address parsed ps) v fits =
    rw (addr_parse-printed address parsed ps v.0 v.1 v.2 v.3) refl
parse_content-text_of g via_codec (via_content address parsed ps) v fits =
    rw (via_parse-printed g address ps v.0 v.1 v.2, v.3) refl
parse_content-text_of g ct_codec (type_content ct ps) v fits =
    rw (ct_parse-printed ct ps v.0 v.1 v.2) refl
parse_content-text_of g ci_codec (string_content text) v fits =
    rw ((get_rest-remaining text (at 0)).0, strncpy_all_fits 300 text (omega (arith, fits))) refl
parse_content-text_of g string_codec (string_content text) v fits =
    rw ((get_rest-remaining text (at 0)).0, take_all 299 text (omega (arith, fits))) refl
parse_content-text_of g uint_codec (integer_content n) v fits =
    let read =
      next_token_last (decimal n) (decimal n) b' ' (at 0) refl (decimal-IsFree n b' ' refl) in
    rw (read.0, atoi-decimal n v) refl
parse_content-text_of g cseq_codec (cseq_content n name m) v fits =
    let text = decimal n ++ b' ' ∷ method_name m in
    let first =
      next_token_field text (decimal n) (method_name m) b' ' (at 0) refl
        (decimal-IsFree n b' ' refl) in
    let second =
      next_token_last text (method_name m) b' ' (next_token text (b' ' ∷ []) (at 0)).1 first.1
        (method_name-IsFree m) in
    rw (first.0, second.0, atol-decimal n v.0, find_method-method_name m v.1, v.2) refl
parse_content-text_of g _ _ v fits = absurd v

pub print_content-text_of :
    (g : Resolver) (k : Codec) (c : Content) (name : Bytes)
    → IsField g k c
    → length (text_of k c) < line_capacity k
    → print_content k name c ≡ ok (some (snprintf (line_capacity k) (labelled name (text_of k c))))
unfolding print_content
print_content-text_of g addr_codec (address_content address parsed ps) name v fits =
    rw (c_str_fits 100 address v.2) refl
print_content-text_of g via_codec (via_content address parsed ps) name v fits =
    rw (c_str_fits 256 address v.2) refl
print_content-text_of g ct_codec (type_content ct ps) name v fits = rw (c_str_fits 150 ct v.2) refl
print_content-text_of g ci_codec (string_content text) name v fits =
    rw (c_str_fits 300 text (omega (arith, fits))) refl
print_content-text_of g string_codec (string_content text) name v fits =
    rw (c_str_fits 300 text (omega (arith, fits))) refl
print_content-text_of g uint_codec (integer_content n) name v fits = refl
print_content-text_of g cseq_codec (cseq_content n method m) name v fits = rw v.2 refl
print_content-text_of g _ _ name v fits = absurd v
