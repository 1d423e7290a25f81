-- ===== src/Sip/Message/Print.antt =====
-- `sipster_sip_request_print` and `sipster_sip_response_print` of src/sip.cpp.
pub mod Twice
pub mod Lines
use sipster.Base.{
  ℕ, ◌+◌, ◌-◌, ◌*◌, Bool, true, false, List, [], ◌∷◌, ◌++◌, map, Option, none, some, Exec, ok,
  fault, overflow, over_read, ◌>>=◌, deref, ltb, leb, if◌then◌else◌, Bytes, length, take, drop,
  replicate,
}
use sipster.Text.{strncpy_full}
use sipster.Sip.Enums.{content_length, content_type}
use sipster.Sip.Header.{type_content, integer_content, Header}
use sipster.Sip.Header.Print.{print_header}
use sipster.Sip.Chain.{Chain, Leaf, Found, append_new_header, get_header, last?, walk}
use sipster.Sip.Message.{ContentBody, Request, Response}
use sipster.Sip.Message.Line.{request_print_line, response_print_line}
use sipster.Sip.Message.Parse.{crlf}

-- Whether `sipster_sip_get_header` gives NULL.
abbrev pub is_missing : Found → Bool
is_missing f = elim f.headers [ [] ↦ true | _ ∷ _ ↦ false ]

abbrev type_header : ContentBody → Header
type_header b = record {
  header_id = content_type;
  content = type_content (strncpy_full 150 b.content_type) [];
}

abbrev length_header : ℕ → Header
length_header n = record { header_id = content_length; content = integer_content n }

abbrev pub body_length : Option ContentBody → ℕ
body_length none = 0
body_length (some b) = b.length

-- A missing Content-Type is added for a body; both appends leave `firstHeader` as it is.
add_content_type : Option ContentBody → Chain → Chain
add_content_type none c = c
add_content_type (some b) c =
    if is_missing (get_header content_type c) then append_new_header c (type_header b) else c

add_content_length : Option ContentBody → Chain → Chain
add_content_length b c =
    if is_missing (get_header content_length c)
    then append_new_header c (length_header (body_length b))
    else c

unfoldable pub complete_headers : Option ContentBody → Chain → Chain
unfolding add_content_type add_content_length
complete_headers b c = add_content_length b (add_content_type b c)

index_share : Option Leaf → ℕ
index_share none = 0
index_share (some l) = (l.index + 1) * 200

-- The size of the output buffer.
unfoldable pub allocation_size : Option ContentBody → Chain → ℕ
unfolding index_share
allocation_size b c = 500 + index_share (last? c.leaves) + body_length b

-- The loop over the headers: each is printed, and its line ended.
unfoldable pub print_leaves : List Leaf → Exec Bytes
print_leaves [] = ok []
print_leaves (l ∷ ls) = do
  h ← deref l.header
  o ← print_header h
  line ← deref o
  rest ← print_leaves ls
  ok (line ++ (crlf ++ rest))

-- `memcpy` of `length` bytes from `char data[1500]`, which holds NULs behind the text.
unfoldable pub body_bytes : Option ContentBody → Exec Bytes
body_bytes none = ok []
body_bytes (some b) =
    if leb b.length 1500
    then ok (take b.length (b.body ++ replicate (1500 - length b.body) 0))
    else fault over_read

-- All that is written, and its final NUL, into the buffer.
write_output : ℕ → Bytes → Exec Bytes
write_output size out = if ltb (length out) size then ok out else fault overflow

-- The common part of both prints: the buffer's content and `size`, which is its length.
unfoldable pub print_message : Bytes → Option ContentBody → Chain → Exec Bytes
unfolding write_output
print_message line b c = do
  headers ← print_leaves (walk c)
  body ← body_bytes b
  write_output (allocation_size b c) (line ++ (crlf ++ (headers ++ (crlf ++ body))))

abbrev emptied : Leaf → Leaf
emptied l = record l { header = none }

consume_from : Option ℕ → Chain → Chain
consume_from none c = c
consume_from (some first) c = record c {
  leaves = take first c.leaves ++ map emptied (drop first c.leaves);
}

-- `header->header = NULL` along the walk: the headers are destroyed by their print.
unfoldable pub consume : Chain → Chain
unfolding consume_from
consume c = consume_from c.first_header c

-- `sipster_sip_request_print`: the output, and the request as the call leaves it.
unfoldable pub request_print : Request → Exec (Bytes × Request)
request_print r =
    let c = complete_headers r.content r.headers in
    do
      out ← print_message (request_print_line r.request_line) r.content c
      ok (out, record r { headers = consume c })

-- `sipster_sip_response_print`.
unfoldable pub response_print : Response → Exec (Bytes × Response)
response_print r =
    let c = complete_headers r.content r.headers in
    do
      out ← print_message (response_print_line r.response_line) r.content c
      ok (out, record r { headers = consume c })
