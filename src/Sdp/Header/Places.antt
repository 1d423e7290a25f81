-- ===== src/Sdp/Header/Places.antt =====
-- Connection and origin lines that are printed and parsed again.
use sipster.Base.{
  take, ◌<◌, ◌≤◌, ◌^◌, [], ◌∷◌, ◌++◌, ◌≡◌, refl, arith, length, take_all, length-append,
}
use sipster.Text.{at, next_token, decimal, snprintf}
use sipster.Text.Token.Split.{IsFree, next_token_field, next_token_last, get_rest-remaining}
use sipster.Text.Word.{
  All-append, IsSolid-IsFree_blank, IsSolid-IsFree_line, ltrim-IsWord, decimal-IsWord,
}
use sipster.Text.Number.RoundTrip.{
  decimal-IsFree, atoi-decimal_byte, atol-decimal, length-decimal_lt,
}
use sipster.Sip.Header.Parse.Fields.{c_str_fits, strncpy_all_fits}
use sipster.Sdp.Types.{
  origin, connection_info, Origin, Connection, connection_content, origin_content,
}
use sipster.Sdp.Header.{parse_sdp_content, connection_parse, origin_parse}
use sipster.Sdp.Header.Lines.{spaced-IsFree_line, IsField, HasLine, line_back}
use sipster.Sdp.Header.Print.{
  lettered, print_sdp_content, connection_text, origin_text, print_connection, print_origin,
}

pub connection-HasLine :
    (c : Connection)
    → IsField 2 c.nettype
    → IsField 3 c.addrtype
    → IsField 45 c.address
    → IsFree (b'/' ∷ []) c.address
    → 1 < c.ttl
    → c.ttl < 2 ^ 8
    → HasLine (record { header_type = connection_info; content = connection_content c })
unfolding print_sdp_content print_connection parse_sdp_content connection_parse snprintf
connection-HasLine c n t a free low high =
    let place = c.address ++ b'/' ∷ decimal c.ttl in
    let text = c.nettype ++ b' ' ∷ (c.addrtype ++ b' ' ∷ place) in
    let shown : connection_text c ≡ text = ground arith in
    let whole : take 63 (lettered b'c' text) ≡ lettered b'c' text =
      take_all 63 (lettered b'c' text) (
        omega (
          arith,
          length-append c.nettype (b' ' ∷ (c.addrtype ++ b' ' ∷ place)),
          length-append c.addrtype (b' ' ∷ place),
          length-append c.address (b'/' ∷ decimal c.ttl),
          length-decimal_lt 2 c.ttl (omega arith),
          n.1,
          t.1,
          a.1,
        )) in
    let first =
      next_token_field text c.nettype (c.addrtype ++ b' ' ∷ place) b' ' (at 0) refl
        (IsSolid-IsFree_blank _ n.0.1) in
    let p1 = (next_token text (b' ' ∷ []) (at 0)).1 in
    let second =
      next_token_field text c.addrtype place b' ' p1 first.1 (IsSolid-IsFree_blank _ t.0.1) in
    let third = get_rest-remaining text (next_token text (b' ' ∷ []) p1).1 in
    let address = next_token_field place c.address (decimal c.ttl) b'/' (at 0) refl free in
    let ttl =
      next_token_last place (decimal c.ttl) b'/' (next_token place (b'/' ∷ []) (at 0)).1 address.1
        (decimal-IsFree c.ttl b'/' refl) in
    line_back connection_info (connection_content c) text
      (rw
        (
          c_str_fits 3 c.nettype (omega (arith, n.1)),
          c_str_fits 4 c.addrtype (omega (arith, t.1)),
          c_str_fits 46 c.address (omega (arith, a.1)),
          shown,
          whole,
        )
        refl)
      (ltrim-IsWord c.nettype _ n.0)
      (rw
        (
          first.0,
          second.0,
          third.0,
          second.1,
          address.0,
          ttl.0,
          strncpy_all_fits 3 c.nettype (omega (arith, n.1)),
          strncpy_all_fits 4 c.addrtype (omega (arith, t.1)),
          strncpy_all_fits 46 c.address (omega (arith, a.1)),
          atoi-decimal_byte c.ttl high,
        )
        refl)
      (spaced-IsFree_line c.nettype _ n.0 (
        spaced-IsFree_line c.addrtype _ t.0 (
          All-append _ c.address _ (IsSolid-IsFree_line _ a.0.1)
            (refl, IsSolid-IsFree_line _ (decimal-IsWord c.ttl).1))))

pub origin-HasLine :
    (o : Origin)
    → IsField 149 o.username
    → o.session_id < 2 ^ 63
    → o.session_version < 2 ^ 63
    → IsField 2 o.nettype
    → IsField 3 o.addrtype
    → IsField 45 o.address
    → length (origin_text o) ≤ 229
    → HasLine (record { header_type = origin; content = origin_content o })
unfolding print_sdp_content print_origin parse_sdp_content origin_parse snprintf
origin-HasLine o u i v n t a fits =
    let text = origin_text o in
    let r4 = o.addrtype ++ b' ' ∷ o.address in
    let r3 = o.nettype ++ b' ' ∷ r4 in
    let r2 = decimal o.session_version ++ b' ' ∷ r3 in
    let r1 = decimal o.session_id ++ b' ' ∷ r2 in
    let e1 = next_token_field text o.username r1 b' ' (at 0) refl (IsSolid-IsFree_blank _ u.0.1) in
    let p1 = (next_token text (b' ' ∷ []) (at 0)).1 in
    let e2 =
      next_token_field text (decimal o.session_id) r2 b' ' p1 e1.1 (decimal-IsFree _ b' ' refl) in
    let p2 = (next_token text (b' ' ∷ []) p1).1 in
    let e3 =
      next_token_field text (decimal o.session_version) r3 b' ' p2 e2.1
        (decimal-IsFree _ b' ' refl) in
    let p3 = (next_token text (b' ' ∷ []) p2).1 in
    let e4 = next_token_field text o.nettype r4 b' ' p3 e3.1 (IsSolid-IsFree_blank _ n.0.1) in
    let p4 = (next_token text (b' ' ∷ []) p3).1 in
    let e5 =
      next_token_field text o.addrtype o.address b' ' p4 e4.1 (IsSolid-IsFree_blank _ t.0.1) in
    let e6 = get_rest-remaining text (next_token text (b' ' ∷ []) p4).1 in
    line_back origin (origin_content o) text
      (rw
        (
          c_str_fits 150 o.username (omega (arith, u.1)),
          c_str_fits 3 o.nettype (omega (arith, n.1)),
          c_str_fits 4 o.addrtype (omega (arith, t.1)),
          c_str_fits 46 o.address (omega (arith, a.1)),
          take_all 231 (lettered b'o' text) (omega (arith, fits)),
        )
        refl)
      (ltrim-IsWord o.username _ u.0)
      (rw
        (
          e1.0,
          e2.0,
          e3.0,
          e4.0,
          e5.0,
          e6.0,
          e5.1,
          strncpy_all_fits 150 o.username (omega (arith, u.1)),
          strncpy_all_fits 3 o.nettype (omega (arith, n.1)),
          strncpy_all_fits 4 o.addrtype (omega (arith, t.1)),
          strncpy_all_fits 46 o.address (omega (arith, a.1)),
          atol-decimal o.session_id i,
          atol-decimal o.session_version v,
        )
        refl)
      (spaced-IsFree_line _ _ u.0 (
        spaced-IsFree_line _ _ (decimal-IsWord o.session_id) (
          spaced-IsFree_line _ _ (decimal-IsWord o.session_version) (
            spaced-IsFree_line _ _ n.0
              (spaced-IsFree_line _ _ t.0 (IsSolid-IsFree_line _ a.0.1))))))
