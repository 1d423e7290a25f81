-- ===== src/Sdp/Session/RoundTrip.antt =====
-- Session descriptions that are printed and parsed again.
use sipster.Base.{
  ◌+◌, ◌<◌, ◌≤◌, List, [], ◌∷◌, ◌++◌, Option, none, some, ◌≡◌, refl, ap, ◌∙◌, arith, ok, length,
  length-append, All, Bytes, append-nil, append_assoc, true, ltb,
}
use sipster.Sdp.Types.{
  version, origin, session_name, session_info, desc_uri, email, phone, connection_info, time_active,
  Media, Attribute, Connection, version_content, origin_content, text_content, connection_content,
  timing_content, SdpHeader, MediaSection, Session, empty_session,
}
use sipster.Sdp.Header.Lines.{HasLine}
use sipster.Sdp.Header.RoundTrip.{IsPrintable, print_sdp_header-HasLine}
use sipster.Sdp.Session.{
  in_section, session_media, store_header, store, optional, attribute_headers, section_headers_of,
  section_headers, session_headers, sdp_print, sdp_parse,
}
use sipster.Sdp.Session.Stored.{
  store_optional, store_all, store_all-append, store_all-optional, store_all-session_attributes,
  store_all-section_attributes, with_last, in_section-last,
}
use sipster.Sdp.Session.Printed.{printed_size, sdp_parse-sdp_print_of}

-- A section with its header, and no more attributes than its array holds.
abbrev pub IsSection : MediaSection → Type 0
IsSection m = ((h : Media) × (m.media_header ≡ some h)) × (length m.attributes ≤ 20)

abbrev section_of :
    Option Media → Option Bytes → Option Connection → List (Option Attribute) → MediaSection
section_of h t c attrs = record { media_header = h; title = t; connection = c; attributes = attrs }

-- The headers of one section, in their order, build it behind the sections before.
module _ (s : Session) (ms : List MediaSection) (h : Media) where
  store_all-section_some :
      (t : Option Bytes) (c : Option Connection) (attrs : List (Option Attribute))
      (rest : List SdpHeader)
      → length attrs ≤ 20
      → length ms < 5
      → let m = section_of (some h) t c attrs in
        store_all (section_headers_of (some h) m ++ rest) (record s { media = ms })
        ≡ store_all rest (with_last s ms m)
  unfolding store_all store store_header in_section session_media
  store_all-section_some t c attrs rest n small =
      let room : ltb (length ms) 5 ≡ true = ground (arith, small) in
      let titled =
        store_all-optional session_info text_content
          (λ o. with_last s ms (section_of (some h) o none [])) t
          (λ o.
            in_section-last (λ (m : MediaSection). ok (record m { title = some o })) _ s ms
              (section_of (some h) none none []) (section_of (some h) (some o) none []) refl) in
      let connected =
        store_all-optional connection_info connection_content
          (λ o. with_last s ms (section_of (some h) t o [])) c
          (λ o.
            in_section-last (λ (m : MediaSection). ok (record m { connection = some o })) _ s ms
              (section_of (some h) t none []) (section_of (some h) t (some o) []) refl) in
      let listed =
        store_all-section_attributes s ms (section_of (some h) t c []) [] attrs
          (omega (arith, n)) in
      let texts = optional session_info text_content t in
      let places = optional connection_info connection_content c in
      let built =
        store_all-append texts (places ++ attribute_headers attrs) _ _ titled
        ∙ store_all-append places (attribute_headers attrs) _ _ connected
        ∙ listed in
      rw room (store_all-append (texts ++ (places ++ attribute_headers attrs)) rest _ _ built)

  store_all-section :
      (m : MediaSection) (rest : List SdpHeader)
      → m.media_header ≡ some h
      → length m.attributes ≤ 20
      → length ms < 5
      → store_all (section_headers_of m.media_header m ++ rest) (record s { media = ms })
        ≡ store_all rest (with_last s ms m)
  store_all-section m rest e n small = go m.media_header e
    where
      go :
          (o : Option Media)
          → o ≡ some h
          → let m' = section_of o m.title m.connection m.attributes in
            store_all (section_headers_of o m' ++ rest) (record s { media = ms })
            ≡ store_all rest (with_last s ms m')
      go o e = rw e (store_all-section_some m.title m.connection m.attributes rest n small)

store_all-section_headers :
    (more ms : List MediaSection) (s : Session)
    → All IsSection more
    → length ms + length more ≤ 5
    → store_all (section_headers more) (record s { media = ms })
      ≡ ok (record s { media = ms ++ more })
unfolding store_all
store_all-section_headers [] ms s w h = rw (append-nil ms) refl
store_all-section_headers (m ∷ more) ms s w h =
    store_all-section s ms w.0.0.0 m (section_headers more) w.0.0.1 w.0.1 (omega (arith, h))
    ∙ store_all-section_headers more (ms ++ m ∷ []) s w.1
        (omega (arith, h, length-append ms (m ∷ [])))
    ∙ ap (λ all. ok (record s { media = all })) (append_assoc ms (m ∷ []) more)

-- No more attributes and sections than the arrays hold, and a header for each section.
abbrev pub IsSession : Session → Type 0
IsSession s = (length s.attributes ≤ 10) × (length s.media ≤ 5) × All IsSection s.media

-- The headers of a session, in the order in which they are printed, build the session.
store_all-session_headers :
    (s : Session) → IsSession s → store_all (session_headers s) empty_session ≡ ok s
unfolding store_header in_section
store_all-session_headers s (few, sections, w) =
    let s0 : Session = empty_session in
    let s1 : Session = record s0 { version = s.version } in
    let s2 : Session = record s1 { origin = s.origin } in
    let s3 : Session = record s2 { session_name = s.session_name } in
    let s4 : Session = record s3 { session_info = s.session_info } in
    let s5 : Session = record s4 { uri = s.uri } in
    let s6 : Session = record s5 { email = s.email } in
    let s7 : Session = record s6 { phone = s.phone } in
    let s8 : Session = record s7 { connection = s.connection } in
    let s9 : Session = record s8 { timing = s.timing } in
    let s10 : Session = record s9 { attributes = s.attributes } in
    let h11 = section_headers s.media in
    let h10 = attribute_headers s.attributes ++ h11 in
    let h9 = optional time_active timing_content s.timing ++ h10 in
    let h8 = optional connection_info connection_content s.connection ++ h9 in
    let h7 = optional phone text_content s.phone ++ h8 in
    let h6 = optional email text_content s.email ++ h7 in
    let h5 = optional desc_uri text_content s.uri ++ h6 in
    let h4 = optional session_info text_content s.session_info ++ h5 in
    let h3 = optional session_name text_content s.session_name ++ h4 in
    let h2 = optional origin origin_content s.origin ++ h3 in
    store_optional version version_content (λ o. record s0 { version = o }) s.version h2 (λ a. refl)
    ∙ store_optional origin origin_content (λ o. record s1 { origin = o }) s.origin h3 (λ a. refl)
    ∙ store_optional session_name text_content (λ o. record s2 { session_name = o }) s.session_name
        h4 (λ a. refl)
    ∙ store_optional session_info text_content (λ o. record s3 { session_info = o }) s.session_info
        h5 (λ a. refl)
    ∙ store_optional desc_uri text_content (λ o. record s4 { uri = o }) s.uri h6 (λ a. refl)
    ∙ store_optional email text_content (λ o. record s5 { email = o }) s.email h7 (λ a. refl)
    ∙ store_optional phone text_content (λ o. record s6 { phone = o }) s.phone h8 (λ a. refl)
    ∙ store_optional connection_info connection_content (λ o. record s7 { connection = o })
        s.connection h9 (λ a. refl)
    ∙ store_optional time_active timing_content (λ o. record s8 { timing = o }) s.timing h10
        (λ a. refl)
    ∙ store_all-append (attribute_headers s.attributes) h11 s9 s10
        (store_all-session_attributes [] s.attributes s9 (omega (arith, few)))
    ∙ store_all-section_headers s.media [] s10 w (omega (arith, sections))

All-HasLine :
    (hs : List SdpHeader) → All (λ h. IsPrintable h.header_type h.content) hs → All HasLine hs
All-HasLine [] w = tt
All-HasLine (h ∷ hs) w = (print_sdp_header-HasLine h w.0, All-HasLine hs w.1)

-- A session description comes back from its text: `sipster_sdp_print` writes it, and
-- `sipster_sdp_parse` reads the same session from what was written. The headers are such that their
-- lines can hold their fields, each section has its media header, the attributes and sections fit in
-- their arrays, and the text with its last line fits in the buffer of 2000 bytes.
pub sdp_parse-sdp_print :
    (s : Session)
    → All (λ h. IsPrintable h.header_type h.content) (session_headers s)
    → IsSession s
    → printed_size (session_headers s) < 1998
    → (out : Bytes) × (sdp_print s ≡ ok out) × (sdp_parse out ≡ ok s)
sdp_parse-sdp_print s w v small =
    sdp_parse-sdp_print_of s (All-HasLine (session_headers s) w) small
      (store_all-session_headers s v)
