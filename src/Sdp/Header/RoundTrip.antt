-- ===== src/Sdp/Header/RoundTrip.antt =====
-- Each header of a session description, printed and parsed again.
use sipster.Base.{
  false, contains, arith, ◌<◌, ◌≤◌, ◌^◌, [], ◌∷◌, ◌++◌, none, some, ◌≡◌, ◌≢◌, refl, Bytes, length,
  codes,
}
use sipster.Text.{ltrim}
use sipster.Text.Token.Split.{IsFree}
use sipster.Text.Word.{All-append, IsSolid-IsFree_line, ltrim-IsWord_end, IsWord, ltrim-IsWord}
use sipster.Sip.Message.Parse.{crlf}
use sipster.Sdp.Types.{
  AttributeType, category, rtpmap, fmtp, Attribute, plain_attribute, rtpmap_attribute,
  fmtp_attribute, MediaType, SdpHeaderType, version, origin, connection_info, time_active,
  attribute, media, SdpContent, version_content, origin_content, text_content, connection_content,
  timing_content, attribute_content, media_content, no_content, SdpHeader,
}
use sipster.Sdp.Attribute.{attribute_at, rtpmap_text}
use sipster.Sdp.Attribute.RoundTrip.{
  rtpmap_text-IsFree_line, IsReadBack, IsRtpmap, plain_attribute-IsReadBack,
  rtpmap_attribute-IsReadBack,
}
use sipster.Sdp.Header.{prototype_at, string_codec, parse_sdp_content}
use sipster.Sdp.Header.Print.{origin_text, print_sdp_content}
use sipster.Sdp.Header.Lines.{
  IsField, HasLine, line_back, version-HasLine, text-HasLine, timing-HasLine,
}
use sipster.Sdp.Header.Places.{connection-HasLine, origin-HasLine}
use sipster.Sdp.Header.MediaLine.{IsMedia, media-HasLine}

attribute_name-IsWord : (t : AttributeType) → IsWord (attribute_at t).name
attribute_name-IsWord category = ((λ e. cc), ground arith)
attribute_name-IsWord _ = ((λ e. cc), ground arith)

-- The attributes that come back: names alone, and encodings.
abbrev pub IsAttribute : Attribute → Type 0
IsAttribute (plain_attribute t) = (t ≢ rtpmap) × (t ≢ fmtp)
IsAttribute (rtpmap_attribute r) = IsRtpmap r
IsAttribute (fmtp_attribute f) = ⊥

attribute-HasLine_of :
    (a : Attribute) (text : Bytes)
    → IsReadBack a text
    → ltrim text ≡ text
    → IsFree crlf text
    → HasLine (record { header_type = attribute; content = attribute_content (some a) })
unfolding print_sdp_content parse_sdp_content
attribute-HasLine_of a text (printed, parsed) trimmed free =
    line_back attribute (attribute_content (some a)) text (rw printed refl) trimmed (rw parsed refl)
      free

attribute-HasLine :
    (a : Attribute)
    → IsAttribute a
    → HasLine (record { header_type = attribute; content = attribute_content (some a) })
attribute-HasLine (plain_attribute t) (h, k) =
    let name = (attribute_at t).name in
    let w = attribute_name-IsWord t in
    attribute-HasLine_of (plain_attribute t) name (plain_attribute-IsReadBack t h k)
      (ltrim-IsWord_end name w) (IsSolid-IsFree_line name w.1)
attribute-HasLine (rtpmap_attribute r) w =
    let named = attribute_name-IsWord rtpmap in
    let free : IsFree crlf (b':' ∷ rtpmap_text r) = (refl, rtpmap_text-IsFree_line r w) in
    attribute-HasLine_of (rtpmap_attribute r) (codes "rtpmap" ++ b':' ∷ rtpmap_text r)
      (rtpmap_attribute-IsReadBack r w) (ltrim-IsWord (codes "rtpmap") _ named)
      (All-append (λ c. contains crlf c ≡ false) (codes "rtpmap") (b':' ∷ rtpmap_text r)
        (IsSolid-IsFree_line (codes "rtpmap") named.1) free)
attribute-HasLine (fmtp_attribute f) w = absurd w

-- A header whose fields its line can hold, under a type that prints such a content.
abbrev pub IsPrintable : SdpHeaderType → SdpContent → Type 0
IsPrintable t (version_content n) = (t ≡ version) × (n < 2 ^ 31)
IsPrintable t (origin_content o) =
    (t ≡ origin)
    × IsField 149 o.username
    × (o.session_id < 2 ^ 63)
    × (o.session_version < 2 ^ 63)
    × IsField 2 o.nettype
    × IsField 3 o.addrtype
    × IsField 45 o.address
    × (length (origin_text o) ≤ 229)
IsPrintable t (text_content s) =
    ((prototype_at t).codec ≡ string_codec) × (ltrim s ≡ s) × IsFree crlf s × (length s ≤ 325)
IsPrintable t (connection_content c) =
    (t ≡ connection_info)
    × IsField 2 c.nettype
    × IsField 3 c.addrtype
    × IsField 45 c.address
    × IsFree (b'/' ∷ []) c.address
    × (1 < c.ttl)
    × (c.ttl < 2 ^ 8)
IsPrintable t (timing_content i) = (t ≡ time_active) × (i.start < 2 ^ 63) × (i.stop < 2 ^ 63)
IsPrintable t (attribute_content none) = ⊥
IsPrintable t (attribute_content (some a)) = (t ≡ attribute) × IsAttribute a
IsPrintable t (media_content m) = (t ≡ media) × ((k : MediaType) × IsMedia k m)
IsPrintable t no_content = ⊥

-- Each header of the table whose fields its line can hold is printed as one line, not empty and with no
-- end of a line in it, and is parsed back from this line: a version below 2 ^ 31; an origin, a
-- connection and a media line of words, numbers and payload types of their sizes; a text; two times
-- below 2 ^ 63; an attribute that is a name, or an encoding.
pub print_sdp_header-HasLine : (h : SdpHeader) → IsPrintable h.header_type h.content → HasLine h
print_sdp_header-HasLine h w = go h.header_type h.content w
  where
    go :
        (t : SdpHeaderType) (c : SdpContent)
        → IsPrintable t c
        → HasLine (record { header_type = t; content = c })
    go t (version_content n) (e, w) = rw e (version-HasLine n w)
    go t (origin_content o) (e, u, i, v, n, a, d, fits) = rw e (origin-HasLine o u i v n a d fits)
    go t (text_content s) (e, l, f, n) = text-HasLine t s e l f n
    go t (connection_content c) (e, n, a, d, f, low, high) =
        rw e (connection-HasLine c n a d f low high)
    go t (timing_content i) (e, h, k) = rw e (timing-HasLine i h k)
    go t (attribute_content none) w = absurd w
    go t (attribute_content (some a)) (e, w) = rw e (attribute-HasLine a w)
    go t (media_content m) (e, (k, w)) = rw e (media-HasLine k m w)
    go t no_content w = absurd w
