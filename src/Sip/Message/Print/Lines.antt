-- ===== src/Sip/Message/Print/Lines.antt =====
-- What the prints write of linked headers, and where they fit into the buffer.
use sipster.Base.{
  ℕ, ◌+◌, ◌*◌, ◌<◌, ◌≤◌, ◌^◌, Bool, true, false, List, [], ◌∷◌, ◌++◌, map, Option, none, some, ◌≡◌,
  refl, sym, ap, ◌∙◌, arith, ok, length, length-append, All, Bytes, leb, if◌then◌else◌, take-append,
}
use sipster.Sip.Enums.{HeaderId, content_length, content_type}
use sipster.Sip.Header.{Header}
use sipster.Sip.Inet.{Resolver}
use sipster.Sip.Header.Parse.Lines.{HasLine, lines_text, length-lines_text}
use sipster.Sip.Chain.{Leaf, append_new_header, get_header, walk}
use sipster.Sip.Chain.Linked.{
  chain_of, header_of, lacks, is_nil, get_header-lacks, append_new_header-chain_of, walk-chain_of,
  last-chain_of,
}
use sipster.Sip.Message.{ContentBody}
use sipster.Sip.Message.Parse.{crlf}
use sipster.Sip.Message.Parse.Body.{sent}
use sipster.Sip.Message.Print.{
  type_header, length_header, body_length, add_content_type, add_content_length, complete_headers,
  index_share, allocation_size, print_leaves, body_bytes, write_output, print_message,
}

-- The headers that a print writes: a Content-Type is added for a body, and a Content-Length, where
-- none of the headers is one.
abbrev pub with_type : Option ContentBody → List Header → List Header
with_type none hs = hs
with_type (some b) hs = if lacks content_type hs then hs ++ type_header b ∷ [] else hs

abbrev pub with_length : Option ContentBody → List Header → List Header
with_length b hs = if lacks content_length hs then hs ++ length_header (body_length b) ∷ [] else hs

abbrev pub completed : Option ContentBody → List Header → List Header
completed b hs = with_length b (with_type b hs)

append_if_lacks :
    (i : HeaderId) (h : Header) (hs : List Header) (k : Header)
    → (if is_nil (get_header i (chain_of (h ∷ hs))).headers
        then append_new_header (chain_of (h ∷ hs)) k
        else chain_of (h ∷ hs))
      ≡ chain_of (if lacks i (h ∷ hs) then (h ∷ hs) ++ k ∷ [] else h ∷ hs)
append_if_lacks i h hs k = rw (get_header-lacks i (h ∷ hs)) (go (lacks i (h ∷ hs)))
  where
    go :
        (b : Bool)
        → (if b then append_new_header (chain_of (h ∷ hs)) k else chain_of (h ∷ hs))
          ≡ chain_of (if b then (h ∷ hs) ++ k ∷ [] else h ∷ hs)
    go true = append_new_header-chain_of h hs k
    go false = refl

-- Adding a header where it is missing leaves the first header first.
abbrev pub Begins : Header → List Header → Type 0
Begins h hs = (ks : List Header) × (hs ≡ h ∷ ks)

append-Begins :
    (b : Bool) (h k : Header) (hs : List Header)
    → Begins h hs
    → Begins h (if b then hs ++ k ∷ [] else hs)
append-Begins true h k hs (ks, e) = (ks ++ k ∷ [], ap (λ l. l ++ k ∷ []) e)
append-Begins false h k hs v = v

with_type-Begins :
    (b : Option ContentBody) (h : Header) (hs : List Header) → Begins h (with_type b (h ∷ hs))
with_type-Begins none h hs = (hs, refl)
with_type-Begins (some b) h hs =
    append-Begins (lacks content_type (h ∷ hs)) h (type_header b) (h ∷ hs) (hs, refl)

pub completed-Begins :
    (b : Option ContentBody) (h : Header) (hs : List Header) → Begins h (completed b (h ∷ hs))
completed-Begins b h hs =
    append-Begins (lacks content_length (with_type b (h ∷ hs))) h _ _ (with_type-Begins b h hs)

add_content_type-chain_of :
    (b : Option ContentBody) (h : Header) (hs : List Header)
    → add_content_type b (chain_of (h ∷ hs)) ≡ chain_of (with_type b (h ∷ hs))
unfolding add_content_type
add_content_type-chain_of none h hs = refl
add_content_type-chain_of (some b) h hs = append_if_lacks content_type h hs (type_header b)

add_content_length-chain_of :
    (b : Option ContentBody) (hs : List Header) (h : Header)
    → Begins h hs
    → add_content_length b (chain_of hs) ≡ chain_of (with_length b hs)
unfolding add_content_length
add_content_length-chain_of b hs h (ks, e) =
    rw e (append_if_lacks content_length h ks (length_header (body_length b)))

-- A message with headers gets the missing ones linked at the end.
pub complete_headers-chain_of :
    (b : Option ContentBody) (h : Header) (hs : List Header)
    → complete_headers b (chain_of (h ∷ hs)) ≡ chain_of (completed b (h ∷ hs))
unfolding complete_headers
complete_headers-chain_of b h hs =
    ap (add_content_length b) (add_content_type-chain_of b h hs)
    ∙ add_content_length-chain_of b (with_type b (h ∷ hs)) h (with_type-Begins b h hs)

print_leaves-lines_text :
    (g : Resolver) (ls : List Leaf) (hs : List Header) (w : All (HasLine g) hs)
    → map header_of ls ≡ map some hs
    → print_leaves ls ≡ ok (lines_text g hs w)
unfolding print_leaves
print_leaves-lines_text g [] [] w e = refl
print_leaves-lines_text g [] (h ∷ hs) w e = cc
print_leaves-lines_text g (l ∷ ls) [] w e = cc
print_leaves-lines_text g (l ∷ ls) (h ∷ hs) w e =
    let here : l.header ≡ some h = cc in
    let rest : map header_of ls ≡ map some hs = cc in
    rw (here, w.0.1, print_leaves-lines_text g ls hs w.1 rest) refl

-- The body is as long as it says, and fits in its array.
abbrev pub IsSent : Option ContentBody → Type 0
IsSent none = Unit
IsSent (some b) = (b.length ≡ length b.body) × (b.length ≤ 1500)

body_bytes-sent : (c : Option ContentBody) → IsSent c → body_bytes c ≡ ok (sent c)
unfolding body_bytes
body_bytes-sent none v = refl
body_bytes-sent (some b) (exact, fits) =
    let room : leb b.length 1500 ≡ true = ground (arith, fits) in
    rw (room, exact, take-append b.body) refl

length-sent : (c : Option ContentBody) → IsSent c → length (sent c) ≡ body_length c
length-sent none v = refl
length-sent (some b) v = sym v.0

-- The text of a message: the first line, the headers, the empty line and the body.
abbrev pub message_text :
    (g : Resolver) (line : Bytes) (hs : List Header)
    → All (HasLine g) hs
    → Option ContentBody
    → Bytes
message_text g line hs w c = line ++ (crlf ++ (lines_text g hs w ++ (crlf ++ sent c)))

pub length-message_text :
    (g : Resolver) (line : Bytes) (c : Option ContentBody) (hs : List Header)
    (w : All (HasLine g) hs)
    → IsSent c
    → length (message_text g line hs w c)
      ≡ length line + length (lines_text g hs w) + body_length c + 4
length-message_text g line c hs w v =
    let headers = lines_text g hs w in
    let e1 = length-append line (crlf ++ (headers ++ (crlf ++ sent c))) in
    let e2 = length-append headers (crlf ++ sent c) in omega (arith, e1, e2, length-sent c v)

allocation_size-chain_of :
    (c : Option ContentBody) (hs : List Header) (h : Header)
    → Begins h hs
    → length hs ≤ 2 ^ 16
    → allocation_size c (chain_of hs) ≡ 500 + 200 * length hs + body_length c
unfolding allocation_size index_share
allocation_size-chain_of c hs h (ks, e) few = rw e (
    let (m, last, index) = last-chain_of h ks (omega (arith, few, ap length e)) in
    rw last (omega (arith, index)))

write_output-fits : (size : ℕ) (out : Bytes) → length out < size → write_output size out ≡ ok out
unfolding write_output
write_output-fits size out h = ground arith

-- A first line of up to 149 bytes and up to 2 ^ 16 headers with their lines fit in the buffer.
pub print_message-message_text :
    (g : Resolver) (line : Bytes) (c : Option ContentBody) (hs : List Header) (h : Header)
    (w : All (HasLine g) hs)
    → length line ≤ 149
    → Begins h hs
    → length hs ≤ 2 ^ 16
    → IsSent c
    → print_message line c (chain_of hs) ≡ ok (message_text g line hs w c)
unfolding print_message
print_message-message_text g line c hs h w short first few v =
    rw (print_leaves-lines_text g (walk (chain_of hs)) hs w (walk-chain_of hs), body_bytes-sent c v)
      (write_output-fits (allocation_size c (chain_of hs)) (message_text g line hs w c) (
        omega (
          arith,
          short,
          length-message_text g line c hs w v,
          allocation_size-chain_of c hs h first few,
          length-lines_text g hs w,
        )))
