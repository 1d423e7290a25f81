-- ===== src/Sip/Address.antt =====
-- SIP addresses of src/sip_headers.cpp: `sipster_address_parse` and the two prints.
pub mod Fuel
use sipster.Base.{
  ℕ, ◌+◌, ◌-◌, ◌*◌, ◌%◌, ◌^◌, ◌&&◌, ◌||◌, [], ◌∷◌, ◌++◌, Option, none, some, Exec, ok, ◌>>=◌, ltb,
  leb, ◌==◌, if◌then◌else◌, Bytes, equal, length, drop,
}
use sipster.Text.{
  is_digit, at, next_token, ltrim, trim, strncpy_bare, strncpy_full, c_str, snprintf, decimal,
}
use sipster.Text.Regex.{Regex, empty, class, seq, star, byte, optional, regex_match}

-- `struct _SipsterSipAddress`: `char schema[16]`, three arrays of 256, an `unsigned short`.
pub record Address : Type 0 where
  pub schema : Bytes
  pub name : Bytes
  pub user : Bytes
  pub domain : Bytes
  pub port : ℕ

-- A structure fresh from the allocator.
abbrev pub zeroed : Address
zeroed = record { schema = []; name = []; user = []; domain = []; port = 0 }

-- `[\"A-Za-z0-9 -+,]`; its ` -+` is a range.
abbrev name_class : Regex
name_class =
    class
      ((b'"', b'"') ∷ (b'A', b'Z') ∷ (b'a', b'z') ∷ (b'0', b'9') ∷ (b' ', b'+') ∷ (b',', b',') ∷ [])

abbrev letter : Regex
letter = class ((b'a', b'z') ∷ (b'A', b'Z') ∷ [])

-- `[a-zA-Z0-9.-_+]`; its `.-_` is a range.
abbrev part_class : Regex
part_class = class ((b'a', b'z') ∷ (b'A', b'Z') ∷ (b'0', b'9') ∷ (b'.', b'_') ∷ (b'+', b'+') ∷ [])

-- `([a-zA-Z]{3,5}):([a-zA-Z0-9.-_+]*)@([a-zA-Z0-9.-_+]*)[.]([a-zA-Z0-9.-_+]*)`, before `rest`.
abbrev uri_before : Regex → Regex
uri_before rest = seq letter (
    seq letter (
      seq letter (
        seq (optional letter) (
          seq (optional letter) (
            seq (byte b':') (
              seq (star part_class) (
                seq (byte b'@')
                  (seq (star part_class) (seq (byte b'.') (seq (star part_class) rest))))))))))

abbrev uri_pattern : Regex
uri_pattern = uri_before empty

-- `([\"A-Za-z0-9 -+,]*[ ])?[<]…[>]`.
abbrev name_addr_pattern : Regex
name_addr_pattern =
    seq (optional (seq (star name_class) (byte b' '))) (seq (byte b'<') (uri_before (byte b'>')))

-- The value of a digit of base 16 or less, and 16 for any other byte.
abbrev digit_value : ℕ → ℕ
digit_value c =
    if is_digit c
    then c - b'0'
    else if leb b'a' c && leb c b'f'
    then c - b'a' + 10
    else if leb b'A' c && leb c b'F'
    then c - b'A' + 10
    else 16

scan_base : ℕ → ℕ → Bytes → ℕ
scan_base base n [] = n
scan_base base n (c ∷ cs) =
    let rest = scan_base base (n * base + digit_value c) cs in
    if ltb (digit_value c) base then rest else n

-- Base 0: `0x` before a hexadecimal digit, then `0`, then decimal.
scan_prefixed : Bytes → ℕ
unfolding scan_base
scan_prefixed (zero_digit ∷ x ∷ d ∷ cs) =
    if zero_digit == b'0' && (x == b'x' || x == b'X') && ltb (digit_value d) 16
    then scan_base 16 0 (d ∷ cs)
    else if zero_digit == b'0'
    then scan_base 8 0 (x ∷ d ∷ cs)
    else scan_base 10 0 (zero_digit ∷ x ∷ d ∷ cs)
scan_prefixed (c ∷ cs) = if c == b'0' then scan_base 8 0 cs else scan_base 10 0 (c ∷ cs)
scan_prefixed [] = 0

-- `strtoul` saturates at 2 ^ 64 - 1, and negates within 64 bits.
saturate_unsigned : ℕ → ℕ
saturate_unsigned n = if ltb n (2 ^ 64) then n else 2 ^ 64 - 1

negate_unsigned : ℕ → ℕ
negate_unsigned n = if ltb n (2 ^ 64) then (2 ^ 64 - n) % 2 ^ 64 else 2 ^ 64 - 1

signed_prefixed : Bytes → ℕ
unfolding scan_prefixed saturate_unsigned negate_unsigned
signed_prefixed [] = 0
signed_prefixed (c ∷ cs) =
    if c == b'-'
    then negate_unsigned (scan_prefixed cs)
    else if c == b'+'
    then saturate_unsigned (scan_prefixed cs)
    else saturate_unsigned (scan_prefixed (c ∷ cs))

-- `(unsigned short) strtoul(port, NULL, 0)`.
unfoldable pub port_number : Bytes → ℕ
unfolding signed_prefixed
port_number s = signed_prefixed (ltrim s) % 2 ^ 16

-- The display name and the URI, if one of the patterns matches.
unfoldable pub split_address : Bytes → Option (Bytes × Bytes)
split_address address =
    if regex_match name_addr_pattern address
    then (let (name, pos) = next_token address (b'<' ∷ []) (at 0) in
        let (uri, pos') = next_token address (b'>' ∷ []) pos in some (trim name, trim uri))
    else if regex_match uri_pattern address
    then some ([], address)
    else none

-- The part behind the patterns, over an object that may hold an older address.
unfoldable pub fill_address : Bytes → Bytes → Address → Exec Address
fill_address name uri addr =
    let (schema, p1) = next_token uri (b':' ∷ []) (at 0) in
    let (user, p2) = next_token uri (b'@' ∷ []) p1 in
    let (domain, p3) = next_token uri (b':' ∷ []) p2 in
    let (port, p4) = next_token uri (b';' ∷ []) p3 in
    do
      n ← strncpy_bare 256 name
      ok (record {
        name = n ++ drop (length n) addr.name;
        user = strncpy_full 256 user;
        schema = strncpy_full 16 schema;
        domain = strncpy_full 256 domain;
        port = if equal port [] then addr.port else port_number port;
      })

fill_if_split : Option (Bytes × Bytes) → Address → Exec (Option Address)
fill_if_split none addr = ok none
fill_if_split (some (name, uri)) addr = do a ← fill_address name uri addr; ok (some a)

-- `sipster_address_parse_inPlace` on an object that is there: `none` is the status -1.
unfoldable pub address_parse_in_place : Bytes → Address → Exec (Option Address)
unfolding fill_if_split
address_parse_in_place address addr = fill_if_split (split_address address) addr

-- `sipster_address_parse`.
unfoldable pub address_parse : Bytes → Exec (Option Address)
address_parse address = address_parse_in_place address zeroed

-- `schema:user@domain`, and the port unless it is below 1.
unfoldable pub uri_text : Address → Exec Bytes
uri_text addr = do
  schema ← c_str 16 addr.schema
  user ← c_str 256 addr.user
  domain ← c_str 256 addr.domain
  let bare = schema ++ (b':' ∷ (user ++ (b'@' ∷ domain)))
  ok (if ltb addr.port 1 then bare else bare ++ (b':' ∷ decimal addr.port))

-- `sipster_address_uri_print`.
unfoldable pub address_uri_print : Address → Exec Bytes
unfolding uri_text
address_uri_print addr = do uri ← uri_text addr; ok (snprintf 300 uri)

-- `sipster_address_print`: the name, a blank if there is a name, and the URI in brackets.
unfoldable pub address_print : Address → Exec Bytes
unfolding uri_text
address_print addr = do
  name ← c_str 256 addr.name
  uri ← uri_text addr
  let blank = if equal name [] then [] else b' ' ∷ []
  ok (snprintf 300 (name ++ (blank ++ (b'<' ∷ (uri ++ (b'>' ∷ []))))))
