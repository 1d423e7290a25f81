-- ===== src/Sip/Header/Print.antt =====
-- The print functions of src/sip_headers.cpp and `sipster_sip_request_print_header` of src/sip.cpp.
use sipster.Base.{◌∷◌, ◌++◌, Option, none, some, Exec, ok, ◌>>=◌, deref, Bytes, codes, get_elem?}
use sipster.Text.{c_str, snprintf, decimal}
use sipster.Sip.Enums.{header_index}
use sipster.Sip.Parameter.{print_params}
use sipster.Sip.Header.{
  Content, address_content, via_content, cseq_content, type_content, string_content,
  integer_content, Header, Codec, addr_codec, via_codec, cseq_codec, ct_codec, ci_codec,
  string_codec, uint_codec, header_prototypes,
}

abbrev pub protocol_and_transport : Bytes
protocol_and_transport = codes "SIP/2.0/UDP"

-- `name: `, in front of every print.
abbrev pub labelled : Bytes → Bytes → Bytes
labelled name text = name ++ (b':' ∷ b' ' ∷ text)

-- `%s` of a NULL pointer prints `(null)` in the C library that the build uses.
abbrev pub method_text : Option Bytes → Bytes
method_text none = codes "(null)"
method_text (some name) = name

-- A call through the `print` pointer of an entry, on the structure that it expects. A structure of
-- another kind than the entry's is never linked under its id; `no_print` gives NULL.
unfoldable pub print_content : Codec → Bytes → Content → Exec (Option Bytes)
print_content addr_codec name (address_content address parsed params) = do
  text ← c_str 100 address
  ok (some (snprintf 300 (labelled name (text ++ print_params params))))
print_content via_codec name (via_content address parsed params) = do
  text ← c_str 256 address
  ok (
      some (
        snprintf 300
          (labelled name (protocol_and_transport ++ (b' ' ∷ (text ++ print_params params))))))
print_content cseq_codec name (cseq_content seq method id) =
    ok (some (snprintf 60 (labelled name (decimal seq ++ (b' ' ∷ method_text method)))))
print_content ct_codec name (type_content ct params) = do
  text ← c_str 150 ct
  ok (some (snprintf 300 (labelled name (text ++ print_params params))))
print_content ci_codec name (string_content text) = do
  s ← c_str 300 text
  ok (some (snprintf 60 (labelled name s)))
print_content string_codec name (string_content text) = do
  s ← c_str 300 text
  ok (some (snprintf 60 (labelled name s)))
print_content uint_codec name (integer_content n) =
    ok (some (snprintf 60 (labelled name (decimal n))))
print_content _ name _ = ok none

-- `sipster_sip_request_print_header` before it destroys the header; `none` is NULL.
unfoldable pub print_header : Header → Exec (Option Bytes)
print_header h = do
  m ← deref (get_elem? header_prototypes (header_index h.header_id))
  print_content m.codec m.header_name h.content
