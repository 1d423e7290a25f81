-- ===== src/Sdp/Session.antt =====
-- `sipster_sdp_parse` and `sipster_sdp_print` of src/sdp.cpp.
pub mod Fuel
pub mod Stored
pub mod Printed
pub mod RoundTrip
use sipster.Base.{
  ℕ, zero, suc, List, [], ◌∷◌, ◌++◌, Option, none, some, Exec, ok, fault, overflow, out_of_fuel,
  ◌>>=◌, deref, ltb, if◌then◌else◌, Bytes, equal, length,
}
use sipster.Text.{Position, at, next_token, strncpy_all}
use sipster.Sip.Message.Parse.{crlf}
use sipster.Sdp.Types.{
  SdpHeaderType, version, origin, session_name, session_info, desc_uri, email, phone,
  connection_info, time_active, attribute, media, Origin, Connection, Timing, Media, Attribute,
  SdpContent, version_content, origin_content, text_content, connection_content, timing_content,
  attribute_content, media_content, SdpHeader, MediaSection, Session, empty_session,
}
use sipster.Sdp.Header.{parse_sdp_header}
use sipster.Sdp.Header.Print.{print_sdp_header}

-- The casts of a header to the structure of its type.
abbrev pub as_number : SdpContent → Option ℕ
as_number (version_content n) = some n
as_number _ = none

abbrev pub as_origin : SdpContent → Option Origin
as_origin (origin_content o) = some o
as_origin _ = none

abbrev pub as_text : SdpContent → Option Bytes
as_text (text_content t) = some t
as_text _ = none

abbrev pub as_connection : SdpContent → Option Connection
as_connection (connection_content c) = some c
as_connection _ = none

abbrev pub as_timing : SdpContent → Option Timing
as_timing (timing_content t) = some t
as_timing _ = none

abbrev pub as_attribute : SdpContent → Option Attribute
as_attribute (attribute_content a) = a
as_attribute _ = none

abbrev pub as_media : SdpContent → Option Media
as_media (media_content m) = some m
as_media _ = none

-- A write behind the last element of an array of pointers to attributes.
abbrev pub append_attribute :
    ℕ → List (Option Attribute) → Option Attribute → Exec (List (Option Attribute))
append_attribute size attrs a =
    if ltb (length attrs) size then ok (attrs ++ a ∷ []) else fault overflow

unfoldable pub section_attribute : Option Attribute → MediaSection → Exec MediaSection
section_attribute a m = do
  attrs ← append_attribute 20 m.attributes a
  ok (record m { attributes = attrs })

unfoldable pub session_attribute : Option Attribute → Session → Exec Session
session_attribute a s = do
  attrs ← append_attribute 10 s.attributes a
  ok (record s { attributes = attrs })

-- A write through `media`, which points at the last section.
unfoldable pub on_last :
    (MediaSection → Exec MediaSection) → List MediaSection → Exec (List MediaSection)
on_last f [] = ok []
on_last f (m ∷ []) = do m' ← f m; ok (m' ∷ [])
on_last f (m ∷ n ∷ ms) = do rest ← on_last f (n ∷ ms); ok (m ∷ rest)

-- `if(media)`: a write to the last section if there is one, else to the session.
unfoldable pub in_section :
    (MediaSection → Exec MediaSection)
    → (Session → Exec Session)
    → List MediaSection
    → Session
    → Exec Session
unfolding on_last
in_section f g [] s = g s
in_section f g (m ∷ ms) s = do ms' ← on_last f (m ∷ ms); ok (record s { media = ms' })

-- A new section behind the last; what there is of it already is zero.
unfoldable pub session_media : Option Media → Session → Exec Session
session_media h s =
    if ltb (length s.media) 5
    then ok (record s {
      media =
          s.media
          ++ record { media_header = h; title = none; connection = none; attributes = [] } ∷ [];
    })
    else fault overflow

-- The `switch` over the type of a header that was parsed.
unfoldable pub store_header : SdpHeaderType → SdpContent → Session → Exec Session
unfolding in_section section_attribute session_attribute session_media
store_header version c s = ok (record s { version = as_number c })
store_header origin c s = ok (record s { origin = as_origin c })
store_header session_name c s = ok (record s { session_name = as_text c })
store_header session_info c s =
    in_section (λ m. ok (record m { title = as_text c }))
      (λ (t : Session). ok (record t { session_info = as_text c })) s.media s
store_header desc_uri c s = ok (record s { uri = as_text c })
store_header email c s = ok (record s { email = as_text c })
store_header phone c s = ok (record s { phone = as_text c })
store_header connection_info c s =
    in_section (λ m. ok (record m { connection = as_connection c }))
      (λ (t : Session). ok (record t { connection = as_connection c })) s.media s
store_header time_active c s = ok (record s { timing = as_timing c })
store_header attribute c s =
    in_section (section_attribute (as_attribute c)) (session_attribute (as_attribute c)) s.media s
store_header media c s = session_media (as_media c) s
store_header _ c s = ok s

-- A line that is not understood is skipped.
unfoldable pub store : Option SdpHeader → Session → Exec Session
store none s = ok s
store (some h) s = store_header h.header_type h.content s

-- The `while` of `sipster_sdp_parse`, on the line read last and the cursor behind it.
unfoldable pub session_loop : ℕ → Bytes → Bytes → Position → Session → Exec Session
session_loop zero input line pos s = fault out_of_fuel
session_loop (suc fuel) input line pos s =
    let (line', pos') = next_token input crlf pos in
    let again = parse_sdp_header line >>= λ (h : Option SdpHeader).
    store h s >>= λ (s' : Session). session_loop fuel input line' pos' s' in
    if equal line [] then ok s else again

-- `sipster_sdp_parse`, which always returns 0.
unfoldable pub sdp_parse : Bytes → Exec Session
sdp_parse input =
    let (line, pos) = next_token input crlf (at 0) in
    session_loop (suc (length input)) input line pos empty_session

abbrev pub typed : SdpHeaderType → SdpContent → SdpHeader
typed t c = record { header_type = t; content = c }

-- The headers behind a pointer that is not NULL.
abbrev pub optional {ℓ} :
    {A : Type ℓ} → SdpHeaderType → (A → SdpContent) → Option A → List SdpHeader
optional t f none = []
optional t f (some a) = typed t (f a) ∷ []

-- Pointers to attribute headers: what they point at may be NULL, they are not.
abbrev pub attribute_headers : List (Option Attribute) → List SdpHeader
attribute_headers [] = []
attribute_headers (a ∷ attrs) = typed attribute (attribute_content a) ∷ attribute_headers attrs

-- A section without its header prints nothing.
abbrev pub section_headers_of : Option Media → MediaSection → List SdpHeader
section_headers_of none m = []
section_headers_of (some h) m =
    typed media (media_content h)
    ∷ (optional session_info text_content m.title
        ++ (optional connection_info connection_content m.connection
            ++ attribute_headers m.attributes))

abbrev pub section_headers : List MediaSection → List SdpHeader
section_headers [] = []
section_headers (m ∷ ms) = section_headers_of m.media_header m ++ section_headers ms

-- The headers in the order in which `sipster_sdp_print` visits them.
abbrev pub session_headers : Session → List SdpHeader
session_headers s =
    optional version version_content s.version
    ++ (optional origin origin_content s.origin
        ++ (optional session_name text_content s.session_name
            ++ (optional session_info text_content s.session_info
                ++ (optional desc_uri text_content s.uri
                    ++ (optional email text_content s.email
                        ++ (optional phone text_content s.phone
                            ++ (optional connection_info connection_content s.connection
                                ++ (optional time_active timing_content s.timing
                                    ++ (attribute_headers s.attributes
                                        ++ section_headers s.media)))))))))

-- `strcat` behind `out` in the buffer of 2000 bytes.
abbrev pub strcat : Bytes → Bytes → Exec Bytes
strcat out s = strncpy_all 2000 (out ++ s)

-- Each header is printed, and its line ended.
unfoldable pub print_headers : List SdpHeader → Bytes → Exec Bytes
print_headers [] out = ok out
print_headers (h ∷ hs) out = do
  o ← print_sdp_header h
  line ← deref o
  out' ← strcat out line
  out'' ← strcat out' crlf
  print_headers hs out''

-- `sipster_sdp_print`.
unfoldable pub sdp_print : Session → Exec Bytes
sdp_print s = do out ← print_headers (session_headers s) []; strcat out crlf
