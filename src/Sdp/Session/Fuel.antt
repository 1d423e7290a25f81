-- ===== src/Sdp/Session/Fuel.antt =====
-- The fuel of the parse of a session description.
use sipster.Base.{
  ok, Exec, ℕ, zero, suc, ◌<◌, List, [], ◌∷◌, Option, none, some, inl, inr, arith, InFuel,
  >>=-InFuel, Bytes, equal, equal_iff, length, Bool-cases, ltb,
}
use sipster.Text.{Position, at, next_token}
use sipster.Text.Token.Split.{remaining, next_token-decreases}
use sipster.Sip.Header.Parse.Fuel.{strncpy_all-InFuel}
use sipster.Sip.Message.Parse.{crlf}
use sipster.Sip.Message.Parse.Fuel.{Enough, Enough-next, Enough-start}
use sipster.Sdp.Types.{
  Attribute, AttributeType, SdpHeaderType, session_info, connection_info, attribute, media,
  SdpContent, SdpHeader, MediaSection, Session,
}
use sipster.Sdp.Attribute.{
  AttributeCodec, rtpmap_codec, fmtp_codec, AttributeMap, AttributeCodec, rtpmap_parse, fmtp_parse,
  parse_attribute, parse_attribute_by, parse_found,
}
use sipster.Sdp.Header.{
  SdpCodec, origin_codec, connection_codec, attr_codec, media_codec, SdpHeaderMap, origin_parse,
  connection_parse, pts_loop, media_parse, parse_sdp_content, parse_sdp_with, parse_sdp_header,
}
use sipster.Sdp.Session.{
  as_connection, as_text, in_section, on_last, section_attribute, session_attribute, session_media,
  store_header, store, session_loop, sdp_parse,
}

pts_loop-InFuel :
    (fuel : ℕ) (input : Bytes) (pos : Position) (pts : List ℕ)
    → length (remaining input pos) < fuel
    → InFuel (pts_loop fuel input pos pts)
unfolding pts_loop
pts_loop-InFuel zero input pos pts h = absurd (omega arith)
pts_loop-InFuel (suc fuel) input pos pts h =
    elim (Bool-cases (equal (next_token input (b' ' ∷ []) pos).0 [])) [
      | inl done ↦ rw done tt
      | inr more ↦ elim (Bool-cases (ltb (length pts) 20)) [
        | inl room ↦
            let shorter =
              next_token-decreases input (b' ' ∷ []) pos (λ e. cc (more, (equal_iff _ []).1 e)) in
            rw (more, room)
              (pts_loop-InFuel fuel input (next_token input (b' ' ∷ []) pos).1 _
                (omega (arith, shorter, h)))
        | inr full ↦ rw (more, full) (λ e. cc)
      ]
    ]

parse_attribute_by-InFuel :
    (c : AttributeCodec) (t : AttributeType) (input : Bytes) → InFuel (parse_attribute_by c t input)
unfolding parse_attribute_by rtpmap_parse fmtp_parse
parse_attribute_by-InFuel rtpmap_codec t input =
    >>=-InFuel _ _
      (>>=-InFuel _ _ (strncpy_all-InFuel 20 _)
        λ e. >>=-InFuel _ _ (strncpy_all-InFuel 40 _) λ p. tt)
      λ r. tt
parse_attribute_by-InFuel fmtp_codec t input =
    >>=-InFuel _ _ (>>=-InFuel _ _ (strncpy_all-InFuel 80 _) λ p. tt) λ r. tt
parse_attribute_by-InFuel _ t input = tt

parse_found-InFuel : (m : Option AttributeMap) (input : Bytes) → InFuel (parse_found m input)
unfolding parse_found
parse_found-InFuel none input = tt
parse_found-InFuel (some m) input =
    >>=-InFuel _ _ (parse_attribute_by-InFuel m.codec m.type input) λ a. tt

parse_attribute-InFuel : (input : Bytes) → InFuel (parse_attribute input)
unfolding parse_attribute
parse_attribute-InFuel input = parse_found-InFuel _ _

media_parse-InFuel : (input : Bytes) → InFuel (media_parse input)
unfolding media_parse
media_parse-InFuel input =
    >>=-InFuel _ _ (strncpy_all-InFuel 10 _)
      λ p. >>=-InFuel _ _ (pts_loop-InFuel _ _ (at 0) [] (omega arith)) λ pts. tt

parse_sdp_content-InFuel : (c : SdpCodec) (input : Bytes) → InFuel (parse_sdp_content c input)
unfolding parse_sdp_content origin_parse connection_parse
parse_sdp_content-InFuel origin_codec input =
    >>=-InFuel _ _
      (>>=-InFuel _ _ (strncpy_all-InFuel 150 _) λ u. >>=-InFuel _ _ (strncpy_all-InFuel 3 _) λ n.
        >>=-InFuel _ _ (strncpy_all-InFuel 4 _)
          λ t. >>=-InFuel _ _ (strncpy_all-InFuel 46 _) λ a. tt)
      λ o. tt
parse_sdp_content-InFuel connection_codec input =
    >>=-InFuel _ _
      (>>=-InFuel _ _ (strncpy_all-InFuel 3 _) λ n.
        >>=-InFuel _ _ (strncpy_all-InFuel 4 _)
          λ t. >>=-InFuel _ _ (strncpy_all-InFuel 46 _) λ a. tt)
      λ c. tt
parse_sdp_content-InFuel attr_codec input =
    >>=-InFuel _ _ (>>=-InFuel _ _ (parse_attribute-InFuel input) λ a. tt) λ c. tt
parse_sdp_content-InFuel media_codec input = >>=-InFuel _ _ (media_parse-InFuel input) λ m. tt
parse_sdp_content-InFuel _ input = tt

parse_sdp_with-InFuel : (m : Option SdpHeaderMap) (input : Bytes) → InFuel (parse_sdp_with m input)
unfolding parse_sdp_with
parse_sdp_with-InFuel none input = tt
parse_sdp_with-InFuel (some m) input =
    >>=-InFuel _ _ (parse_sdp_content-InFuel m.codec input) λ c. tt

parse_sdp_header-InFuel : (input : Bytes) → InFuel (parse_sdp_header input)
unfolding parse_sdp_header
parse_sdp_header-InFuel input = parse_sdp_with-InFuel _ _

section_attribute-InFuel :
    (a : Option Attribute) (m : MediaSection) → InFuel (section_attribute a m)
unfolding section_attribute
section_attribute-InFuel a m = ground arith

on_last-InFuel :
    (f : MediaSection → Exec MediaSection) (ms : List MediaSection)
    → ((m : MediaSection) → InFuel (f m))
    → InFuel (on_last f ms)
unfolding on_last
on_last-InFuel f [] h = tt
on_last-InFuel f (m ∷ []) h = >>=-InFuel _ _ (h m) λ m'. tt
on_last-InFuel f (m ∷ n ∷ ms) h = >>=-InFuel _ _ (on_last-InFuel f (n ∷ ms) h) λ r. tt

in_section-InFuel :
    (f : MediaSection → Exec MediaSection) (g : Session → Exec Session) (ms : List MediaSection)
    (s : Session)
    → ((m : MediaSection) → InFuel (f m))
    → InFuel (g s)
    → InFuel (in_section f g ms s)
unfolding in_section
in_section-InFuel f g [] s h k = k
in_section-InFuel f g (m ∷ ms) s h k = >>=-InFuel _ _ (on_last-InFuel f (m ∷ ms) h) λ r. tt

store_header-InFuel :
    (t : SdpHeaderType) (c : SdpContent) (s : Session) → InFuel (store_header t c s)
unfolding store_header session_attribute session_media
store_header-InFuel session_info c s =
    in_section-InFuel (λ (m : MediaSection). ok (record m { title = as_text c })) _ s.media s
      (λ m. tt) tt
store_header-InFuel connection_info c s =
    in_section-InFuel (λ (m : MediaSection). ok (record m { connection = as_connection c })) _
      s.media s (λ m. tt) tt
store_header-InFuel attribute c s =
    in_section-InFuel _ _ s.media s (section_attribute-InFuel _) (ground arith)
store_header-InFuel media c s = ground arith
store_header-InFuel _ c s = tt

store-InFuel : (h : Option SdpHeader) (s : Session) → InFuel (store h s)
unfolding store
store-InFuel none s = tt
store-InFuel (some h) s = store_header-InFuel h.header_type h.content s

session_loop-InFuel :
    (fuel : ℕ) (input line : Bytes) (pos : Position) (s : Session)
    → Enough fuel input line pos
    → InFuel (session_loop fuel input line pos s)
unfolding session_loop
session_loop-InFuel zero input line pos s h = absurd (omega arith)
session_loop-InFuel (suc fuel) input line pos s h = elim (Bool-cases (equal line [])) [
  | inl over ↦ rw over tt
  | inr more ↦
      let left : length (remaining input pos) < fuel = omega (arith, rw more at h) in
      rw more (
        >>=-InFuel _ _ (parse_sdp_header-InFuel line) λ o. >>=-InFuel _ _ (store-InFuel o s) λ s'.
          session_loop-InFuel fuel input (next_token input crlf pos).0 (next_token input crlf pos).1
            s' (Enough-next fuel input pos left))
]

-- `sipster_sdp_parse` ends on every text: neither its loop over the lines nor the loop over the payload
-- types of a media line stops for lack of fuel.
pub sdp_parse-InFuel : (input : Bytes) → InFuel (sdp_parse input)
unfolding sdp_parse
sdp_parse-InFuel input = session_loop-InFuel _ input _ _ _ (Enough-start input (at 0))
