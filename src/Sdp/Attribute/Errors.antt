-- ===== src/Sdp/Attribute/Errors.antt =====
-- What `sdp_attr_fmtp_parse` makes of the text of its own print.
use sipster.Base.{
  Bytes, ℕ, ◌<◌, ◌^◌, [], ◌∷◌, ◌++◌, some, ◌≡◌, refl, arith, ok, length, codes, ltb, if◌then◌else◌,
  fault, overflow, length-append, take_all, ◌≤◌, Bool-cases, inl, inr,
}
use sipster.Text.{snprintf, strncpy_all, at, next_token, ltrim, decimal}
use sipster.Text.Token.Split.{next_token_field, get_rest-remaining}
use sipster.Text.Word.{ltrim-IsWord, decimal-IsWord}
use sipster.Text.Number.RoundTrip.{decimal-IsFree, length-decimal_lt, atoi-decimal_short}
use sipster.Sip.Header.Parse.Fields.{strncpy_all_fits, c_str_fits}
use sipster.Sdp.Types.{Fmtp, fmtp_attribute}
use sipster.Sdp.Attribute.{
  find_attribute, parse_attribute, parse_attribute_by, parse_found, fmtp_parse, fmtp_text,
  print_attribute, plain_text, snprintf_into,
}

strncpy_all_if :
    (cap : ℕ) (s : Bytes)
    → strncpy_all cap s ≡ (if ltb (length s) cap then ok s else fault overflow)
unfolding strncpy_all
strncpy_all_if cap s = refl

-- The parameters of an `fmtp` attribute do not come back from its line. An attribute with a payload type
-- below 2 ^ 16 and at most 79 bytes of parameters is printed whole. If what is printed behind the name,
-- the payload type, a blank and the parameters, has less than 80 bytes, the parse of the line gives
-- parameters that begin with the payload type once more; else it writes past the array of the parameters.
pub parse_attribute-print_attribute :
    (f : Fmtp)
    → f.pt < 2 ^ 16
    → length f.params < 80
    → (print_attribute (fmtp_attribute f) ≡ ok (plain_text (codes "fmtp" ++ b':' ∷ fmtp_text f)))
      × (parse_attribute (codes "fmtp" ++ b':' ∷ fmtp_text f) ≡ (
          if ltb (length (fmtp_text f)) 80
          then ok (some (fmtp_attribute (record f { params = decimal f.pt ++ b' ' ∷ f.params })))
          else fault overflow))
unfolding print_attribute snprintf_into snprintf parse_attribute find_attribute parse_found
    parse_attribute_by fmtp_parse fmtp_text
parse_attribute-print_attribute f small fits =
    let text = decimal f.pt ++ b' ' ∷ f.params in
    let line = codes "fmtp" ++ b':' ∷ text in
    let short : length line ≤ 95 = omega (
      arith,
      fits,
      length-append (decimal f.pt) (b' ' ∷ f.params),
      length-decimal_lt 4 f.pt (omega (arith, small)),
    ) in
    let first = next_token_field line (codes "fmtp") text b':' (at 0) refl (ground arith) in
    let rest = get_rest-remaining line (next_token line (b':' ∷ []) (at 0)).1 in
    let pt =
      next_token_field text (decimal f.pt) f.params b' ' (at 0) refl
        (decimal-IsFree f.pt b' ' refl) in
    let params = get_rest-remaining text (at 0) in
    let trimmed : ltrim text ≡ text = ltrim-IsWord (decimal f.pt) _ (decimal-IsWord f.pt) in
    let kept : strncpy_all 80 text ≡ (if ltb (length text) 80 then ok text else fault overflow) =
      strncpy_all_if 80 text in
    (
      rw
          (
            c_str_fits 80 f.params fits,
            take_all 95 line short,
            strncpy_all_fits 98 (plain_text line) (omega (arith, short)),
          )
          refl,
      rw (first.0, rest.0, first.1, trimmed, pt.0, params.0, atoi-decimal_short f.pt small)
          (elim (Bool-cases (ltb (length text) 80)) [
            | inl room ↦ rw (kept, room) refl
            | inr full ↦ rw (kept, full) refl
          ]),
    )
