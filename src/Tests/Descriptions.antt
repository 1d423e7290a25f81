-- ===== src/Tests/Descriptions.antt =====
-- Runs of the model on a session description, and applications of the theorems on them.
use sipster.Sdp.Header.Errors.{parse_sdp_header-print_sdp_header_cut}
use sipster.Sdp.Header.Copies.{sdp_header_clone_iff}
use sipster.Sdp.Attribute.Errors.{parse_attribute-print_attribute}
use sipster.Sdp.Session.Printed.{printed_size}
use sipster.Sdp.Header.RoundTrip.{print_sdp_header-HasLine, IsPrintable}
use sipster.Sdp.Session.RoundTrip.{sdp_parse-sdp_print, IsSession}
use sipster.Sdp.Header.Clone.{sdp_header_clone}
use sipster.Sdp.Header.Lines.{HasLine}
use sipster.Base.{
  overflow, fault, ltb, if◌then◌else◌, ◌≤◌, ◌<◌, ◌↔◌, length, All, ◌++◌, [], ◌∷◌, none, some, ◌≡◌,
  refl, arith, ok, Bytes, codes, InFuel, inl,
}
use sipster.Text.{
  next_token, get_rest, ltrim, rtrim, trim, strncpy_all, strncpy_bounded, atoi, atol, strtol,
  scan_digits, decimal, digits, snprintf, c_str,
}
use sipster.Sdp.Types.{
  media_content, fmtp_attribute, media, Fmtp, SdpHeader, sendrecv, Rtpmap, rtpmap_attribute,
  plain_attribute, Media, audio, Session, empty_session,
}
use sipster.Sdp.Attribute.{
  plain_text, fmtp_text, parse_attribute, find_attribute, parse_attribute_by, rtpmap_parse,
  print_attribute, rtpmap_text, snprintf_into,
}
use sipster.Sdp.Attribute.RoundTrip.{IsRtpmap}
use sipster.Sdp.Header.{
  pts_loop, origin_parse, timing_parse, media_parse, media_type_decode, parse_sdp_content,
  find_sdp_prototype, parse_sdp_header,
}
use sipster.Sdp.Header.Payloads.{pts_buffer-fits}
use sipster.Sdp.Header.Print.{pts_text, pts_buffer, print_sdp_content, print_sdp_header}
use sipster.Sdp.Header.MediaLine.{IsMedia}
use sipster.Sdp.Session.{
  session_headers, session_loop, store, store_header, sdp_parse, sdp_print, print_headers,
}
use sipster.Sdp.Session.Fuel.{sdp_parse-InFuel}

abbrev pcma : Rtpmap
pcma = record { pt = 8; encoding = codes "PCMA"; clock = 8000; channels = 0; params = [] }

abbrev call_media : Media
call_media = record {
  media_type = some audio;
  port = 4000;
  port_count = 0;
  protocol = codes "RTP/AVP";
  pts = 0 ∷ 8 ∷ [];
}

abbrev pub call_session : Session
call_session = record empty_session {
  version = some 0;
  origin = some (record {
    username = codes "al";
    session_id = 1;
    session_version = 2;
    nettype = codes "IN";
    addrtype = codes "IP4";
    address = codes "h";
  });
  session_name = some (codes "-");
  timing = some (record { start = 0; stop = 0 });
  media =
      record {
        media_header = some call_media;
        title = none;
        connection = none;
        attributes = some (rtpmap_attribute pcma) ∷ some (plain_attribute sendrecv) ∷ [];
      }
      ∷ [];
}

abbrev pub call_text : Bytes
call_text =
    codes
      "v=0\r\no=al 1 2 IN IP4 h\r\ns=-\r\nt=0 0\r\nm=audio 4000 RTP/AVP 0 8\r\na=rtpmap:8 PCMA/8000\r\na=sendrecv\r\n\r\n"

pub sdp_print-call : sdp_print call_session ≡ ok call_text
unfolding sdp_print print_headers print_sdp_header print_sdp_content print_attribute rtpmap_text
    snprintf_into snprintf strncpy_all c_str decimal digits pts_buffer
sdp_print-call = refl

sdp_parse-call : sdp_parse call_text ≡ ok call_session
unfolding sdp_parse session_loop store store_header parse_sdp_header parse_sdp_content origin_parse
    timing_parse media_parse media_type_decode pts_loop find_sdp_prototype parse_attribute
    find_attribute parse_attribute_by rtpmap_parse next_token get_rest ltrim rtrim trim strncpy_all
    strncpy_bounded atoi atol strtol scan_digits
sdp_parse-call = refl

sdp_parse-InFuel_example : InFuel (sdp_parse call_text)
sdp_parse-InFuel_example = sdp_parse-InFuel call_text

pcma-IsRtpmap : IsRtpmap pcma
pcma-IsRtpmap = (
  omega arith,
  ((λ e. cc), ground arith),
  ground arith,
  omega arith,
  omega arith,
  inl (refl, refl),
)

call_media-IsMedia : IsMedia audio call_media
unfolding decimal digits snprintf
call_media-IsMedia = (
  refl,
  omega arith,
  inl refl,
  omega arith,
  ((λ e. cc), ground arith),
  omega arith,
  (omega arith, (omega arith, tt)),
  omega arith,
  omega arith,
)

pub call-IsPrintable : All (λ h. IsPrintable h.header_type h.content) (session_headers call_session)
unfolding ltrim decimal digits
call-IsPrintable = (
  (refl, omega arith),
  (
    (
      refl,
      (((λ e. cc), ground arith), omega arith),
      omega arith,
      omega arith,
      (((λ e. cc), ground arith), omega arith),
      (((λ e. cc), ground arith), omega arith),
      (((λ e. cc), ground arith), omega arith),
      omega arith,
    ),
    (
      (refl, refl, ground arith, omega arith),
      (
        (refl, omega arith, omega arith),
        (
          (refl, (audio, call_media-IsMedia)),
          ((refl, pcma-IsRtpmap), ((refl, ((λ e. cc), (λ e. cc))), tt)),
        ),
      ),
    ),
  ),
)

pub call-IsSession : IsSession call_session
call-IsSession = (omega arith, omega arith, (((call_media, refl), omega arith), tt))

pub call_size : printed_size (session_headers call_session) < 1998
unfolding print_sdp_header print_sdp_content print_attribute rtpmap_text snprintf_into snprintf
    strncpy_all c_str decimal digits pts_buffer
call_size = omega arith

sdp_parse-sdp_print_example :
    (out : Bytes) × (sdp_print call_session ≡ ok out) × (sdp_parse out ≡ ok call_session)
sdp_parse-sdp_print_example =
    sdp_parse-sdp_print call_session call-IsPrintable call-IsSession call_size

abbrev media_line : SdpHeader
media_line = record { header_type = media; content = media_content call_media }

media_line-IsPrintable : IsPrintable media_line.header_type media_line.content
media_line-IsPrintable = (refl, (audio, call_media-IsMedia))

print_sdp_header-HasLine_example : HasLine media_line
print_sdp_header-HasLine_example = print_sdp_header-HasLine media_line media_line-IsPrintable

sdp_header_clone_iff_example :
    (sdp_header_clone media_line ≡ media_line)
    ↔ ((call_media.pts ≡ []) × (length call_media.protocol ≤ 8))
sdp_header_clone_iff_example = sdp_header_clone_iff media_line media_line-IsPrintable

abbrev pcma_params : Fmtp
pcma_params = record { pt = 8; params = codes "x" }

parse_attribute-print_attribute_example :
    (print_attribute (fmtp_attribute pcma_params)
      ≡ ok (plain_text (codes "fmtp" ++ b':' ∷ fmtp_text pcma_params)))
    × (parse_attribute (codes "fmtp" ++ b':' ∷ fmtp_text pcma_params) ≡ (
        if ltb (length (fmtp_text pcma_params)) 80
        then ok
            (some (fmtp_attribute (record pcma_params { params = decimal 8 ++ b' ' ∷ codes "x" })))
        else fault overflow))
parse_attribute-print_attribute_example =
    parse_attribute-print_attribute pcma_params (omega arith) (omega arith)

-- The second payload type has three digits.
abbrev dynamic_media : Media
dynamic_media = record call_media { pts = 0 ∷ 101 ∷ [] }

dynamic_media-IsMedia : IsMedia audio (record dynamic_media { pts = 0 ∷ 10 ∷ [] })
unfolding decimal digits snprintf
dynamic_media-IsMedia = (
  refl,
  omega arith,
  inl refl,
  omega arith,
  ((λ e. cc), ground arith),
  omega arith,
  (omega arith, (omega arith, tt)),
  omega arith,
  omega arith,
)

parse_sdp_header-print_sdp_header_cut_example :
    (line : Bytes) × (print_sdp_header
        (record { header_type = media; content = media_content dynamic_media })
      ≡ ok (some line))
    × (parse_sdp_header line
        ≡ ok (
            some (record {
              header_type = media;
              content = media_content (record dynamic_media { pts = 0 ∷ 10 ∷ [] });
            })))
parse_sdp_header-print_sdp_header_cut_example =
    parse_sdp_header-print_sdp_header_cut audio dynamic_media (omega arith, (omega arith, tt))
      dynamic_media-IsMedia

pts_buffer-fits_example : pts_buffer (0 ∷ 101 ∷ []) ≡ ok (pts_text (0 ∷ 101 ∷ []))
pts_buffer-fits_example = pts_buffer-fits (0 ∷ 101 ∷ [])
