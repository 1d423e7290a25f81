-- ===== src/Sdp/Header/Copies.antt =====
-- Which headers of a session description `sipster_sdp_header_clone` copies.
use sipster.Base.{
  ◌≤◌, [], none, some, ◌≡◌, ◌↔◌, refl, sym, ap, arith, length, take_all, length-take,
}
use sipster.Sdp.Types.{
  media, SdpHeaderType, Media, SdpContent, version_content, origin_content, text_content,
  connection_content, timing_content, attribute_content, media_content, no_content, SdpHeader,
}
use sipster.Sdp.Header.Clone.{clone_sdp_content, media_clone, sdp_header_clone}
use sipster.Sdp.Header.RoundTrip.{IsPrintable}

-- What a copy keeps: all but the number of a version, the payload types of a media line, and the bytes
-- of its protocol behind the eighth.
abbrev pub IsCopied : SdpContent → Type 0
IsCopied (version_content n) = n ≡ 0
IsCopied (media_content m) = (m.pts ≡ []) × (length m.protocol ≤ 8)
IsCopied _ = Unit

media_clone_iff : (m : Media) → (media_clone m ≡ m) ↔ ((m.pts ≡ []) × (length m.protocol ≤ 8))
media_clone_iff m = (
  (λ e. (
    sym (ap (λ (k : Media). k.pts) e),
    omega (arith, length-take 8 m.protocol, ap (λ (k : Media). length k.protocol) e),
  )),
  (λ (empty, short). rw (empty, take_all 8 m.protocol short) refl),
)

-- A header whose fields its line can hold is copied as it is if and only if it is no version but 0, and
-- no media line with payload types or with more than eight bytes of protocol.
pub sdp_header_clone_iff :
    (h : SdpHeader)
    → IsPrintable h.header_type h.content
    → (sdp_header_clone h ≡ h) ↔ IsCopied h.content
unfolding sdp_header_clone clone_sdp_content
sdp_header_clone_iff h w = go h.header_type h.content w
  where
    header_of_type : SdpHeaderType → SdpContent → SdpHeader
    header_of_type t c = record { header_type = t; content = c }

    whole : (h k : SdpHeader) → h ≡ k → (h ≡ k) ↔ Unit {0}
    whole h k e = ((λ f. tt), (λ u. e))

    go :
        (t : SdpHeaderType) (c : SdpContent)
        → IsPrintable t c
        → (sdp_header_clone (header_of_type t c) ≡ header_of_type t c) ↔ IsCopied c
    go t (version_content n) w = rw (w.0) ((λ e. cc), (λ z. rw z refl))
    go t (origin_content o) w = rw (w.0) (whole _ _ refl)
    go t (text_content s) w = rw (w.0) (whole _ _ refl)
    go t (connection_content c) w = rw (w.0) (whole _ _ refl)
    go t (timing_content i) w = rw (w.0) (whole _ _ refl)
    go t (attribute_content none) w = absurd w
    go t (attribute_content (some a)) w = rw (w.0) (whole _ _ refl)
    go t (media_content m) w =
        let i = media_clone_iff m in
        rw (w.0) ((λ e. i.0 cc), (λ u. ap (λ k. header_of_type media (media_content k)) (i.1 u)))
    go t no_content w = absurd w
