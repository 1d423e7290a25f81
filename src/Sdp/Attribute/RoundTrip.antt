-- ===== src/Sdp/Attribute/RoundTrip.antt =====
-- Attribute lines that are printed and parsed again.
use sipster.Sip.Message.Parse.{crlf}
use sipster.Base.{
  ltb, equal_iff, Bool-cases, false, equal, if◌then◌else◌, ℕ, ◌<◌, ◌≤◌, ◌^◌, [], ◌∷◌, ◌++◌, some,
  ◌≡◌, ◌≢◌, ◌⊎◌, inl, inr, refl, sym, ◌∙◌, arith, ok, Bytes, length, take_all, length-append,
  append-nil, codes,
}
use sipster.Text.{atoi, Position, at, next_token, ltrim, decimal, snprintf, strncpy_all}
use sipster.Text.Token.Split.{
  remaining, IsFree, next_token_field, next_token_last, get_rest-remaining,
}
use sipster.Text.Word.{
  IsSolid-IsFree_line, All-append, IsWord, ltrim-IsWord, decimal-IsWord, decimal-ne,
}
use sipster.Text.Number.RoundTrip.{
  decimal-IsFree, atoi-decimal, atoi-decimal_short, length-decimal_lt,
}
use sipster.Sip.Header.Parse.Fields.{c_str_fits, strncpy_all_fits}
use sipster.Sdp.Types.{
  AttributeType, category, sendonly, rtpmap, fmtp, Rtpmap, Attribute, plain_attribute,
  rtpmap_attribute,
}
use sipster.Sdp.Attribute.{
  attribute_at, find_attribute, parse_attribute, parse_attribute_by, parse_found, plain_text,
  valued_text, print_attribute, rtpmap_text, rtpmap_parse, snprintf_into, channels_text,
}

-- The text behind `a=` in the line that an attribute prints is parsed as that attribute.
abbrev pub IsReadBack : Attribute → Bytes → Type 0
IsReadBack a text =
    (print_attribute a ≡ ok (plain_text text)) × (parse_attribute text ≡ ok (some a))

-- An attribute that is a name only, whatever its type.
pub plain_attribute-IsReadBack :
    (t : AttributeType)
    → t ≢ rtpmap
    → t ≢ fmtp
    → IsReadBack (plain_attribute t) (attribute_at t).name
unfolding print_attribute parse_attribute parse_attribute_by snprintf_into snprintf strncpy_all
    find_attribute next_token
plain_attribute-IsReadBack category h k = (refl, refl)
plain_attribute-IsReadBack sendonly h k = (refl, refl)
plain_attribute-IsReadBack rtpmap h k = absurd (h refl)
plain_attribute-IsReadBack fmtp h k = absurd (k refl)
plain_attribute-IsReadBack _ h k = (refl, refl)

parse_attribute-valued :
    (text : Bytes)
    → ltrim text ≡ text
    → parse_attribute (codes "rtpmap" ++ b':' ∷ text)
      ≡ parse_found (some (attribute_at rtpmap)) text
unfolding parse_attribute find_attribute
parse_attribute-valued text trimmed =
    let line = codes "rtpmap" ++ b':' ∷ text in
    let first = next_token_field line (codes "rtpmap") text b':' (at 0) refl (ground arith) in
    let rest = get_rest-remaining line (next_token line (b':' ∷ []) (at 0)).1 in
    rw (first.0, rest.0, first.1, trimmed) refl

-- The channels and the text of the parameters say the same.
abbrev pub IsChannels : ℕ → Bytes → Type 0
IsChannels n params = ((n ≡ 0) × (params ≡ [])) ⊎ ((1 < n) × (n < 2 ^ 16) × (params ≡ decimal n))

-- What `rtpmap_parse` reads behind the payload type.
abbrev encoding_data : Rtpmap → Bytes
encoding_data r = r.encoding ++ b'/' ∷ (decimal r.clock ++ channels_text r.channels)

clock_field :
    (input : Bytes) (p : Position) (clock n : ℕ) (params : Bytes)
    → remaining input p ≡ decimal clock ++ channels_text n
    → IsChannels n params
    → ((next_token input (b'/' ∷ []) p).0 ≡ decimal clock)
      × (remaining input (next_token input (b'/' ∷ []) p).1 ≡ params)
      × ((if equal params [] then 0 else atoi 16 params) ≡ n)
clock_field input p clock n params e (inl (z, none)) =
    let e' : remaining input p ≡ decimal clock = e ∙ rw z (append-nil (decimal clock)) in
    let last = next_token_last input (decimal clock) b'/' p e' (decimal-IsFree clock b'/' refl) in
    (last.0, last.1 ∙ sym none, rw none (sym z))
clock_field input p clock n params e (inr (many, small, shown)) =
    let e' : remaining input p ≡ decimal clock ++ b'/' ∷ decimal n = e ∙ ground arith in
    let field =
      next_token_field input (decimal clock) (decimal n) b'/' p e'
        (decimal-IsFree clock b'/' refl) in
    let there : equal params [] ≡ false = elim (Bool-cases (equal params [])) [
      | inl e ↦ absurd (decimal-ne n (sym shown ∙ (equal_iff params []).0 e))
      | inr e ↦ e
    ] in
    (field.0, field.1 ∙ sym shown, rw (there, shown) (atoi-decimal_short n small))

length-channels_text : (n : ℕ) → n < 2 ^ 16 → length (channels_text n) ≤ 6
length-channels_text n h = ground (arith, length-decimal_lt 4 n (omega arith))

IsChannels-lt : (n : ℕ) (params : Bytes) → IsChannels n params → n < 2 ^ 16
IsChannels-lt n params (inl (z, none)) = omega (arith, z)
IsChannels-lt n params (inr (many, small, shown)) = small

IsChannels-length : (n : ℕ) (params : Bytes) → IsChannels n params → length params < 40
IsChannels-length n params (inl (z, none)) = rw none (omega arith)
IsChannels-length n params (inr (many, small, shown)) =
    rw shown (omega (arith, length-decimal_lt 4 n (omega arith)))

-- An `rtpmap` whose encoding is a word without a slash.
abbrev pub IsRtpmap : Rtpmap → Type 0
IsRtpmap r =
    (r.pt < 2 ^ 16)
    × IsWord r.encoding
    × IsFree (b'/' ∷ []) r.encoding
    × (length r.encoding ≤ 19)
    × (r.clock < 2 ^ 32)
    × IsChannels r.channels r.params

rtpmap_parse-rtpmap_text : (r : Rtpmap) → IsRtpmap r → rtpmap_parse (rtpmap_text r) ≡ ok r
unfolding rtpmap_parse rtpmap_text
rtpmap_parse-rtpmap_text r (pt, word, free, fits, clock, channels) =
    let text = decimal r.pt ++ b' ' ∷ encoding_data r in
    let e1 =
      next_token_field text (decimal r.pt) (encoding_data r) b' ' (at 0) refl
        (decimal-IsFree r.pt b' ' refl) in
    let e2 = get_rest-remaining text (next_token text (b' ' ∷ []) (at 0)).1 in
    let d1 =
      next_token_field (encoding_data r) r.encoding (decimal r.clock ++ channels_text r.channels)
        b'/' (at 0) refl free in
    let q1 = (next_token (encoding_data r) (b'/' ∷ []) (at 0)).1 in
    let d2 = clock_field (encoding_data r) q1 r.clock r.channels r.params d1.1 channels in
    let d3 = get_rest-remaining (encoding_data r) (next_token (encoding_data r) (b'/' ∷ []) q1).1 in
    rw
      (
        e1.0,
        e2.0,
        e1.1,
        d1.0,
        d2.0,
        d3.0,
        d2.1,
        d2.2,
        strncpy_all_fits 20 r.encoding (omega (arith, fits)),
        strncpy_all_fits 40 r.params (IsChannels-length r.channels r.params channels),
        atoi-decimal_short r.pt pt,
        atoi-decimal r.clock clock,
      )
      refl

length-rtpmap_text : (r : Rtpmap) → IsRtpmap r → length (rtpmap_text r) ≤ 42
unfolding rtpmap_text
length-rtpmap_text r (pt, word, free, fits, clock, channels) = omega (
  arith,
  length-append (decimal r.pt) (b' ' ∷ encoding_data r),
  length-append r.encoding (b'/' ∷ (decimal r.clock ++ channels_text r.channels)),
  length-append (decimal r.clock) (channels_text r.channels),
  length-decimal_lt 4 r.pt (omega (arith, pt)),
  length-decimal_lt 9 r.clock (omega (arith, clock)),
  length-channels_text r.channels (IsChannels-lt _ _ channels),
  fits,
)

ltrim-rtpmap_text : (r : Rtpmap) → ltrim (rtpmap_text r) ≡ rtpmap_text r
unfolding rtpmap_text
ltrim-rtpmap_text r = ltrim-IsWord (decimal r.pt) _ (decimal-IsWord r.pt)

-- An `rtpmap` with its payload type, encoding, clock rate and channels.
pub rtpmap_attribute-IsReadBack :
    (r : Rtpmap)
    → IsRtpmap r
    → IsReadBack (rtpmap_attribute r) (codes "rtpmap" ++ b':' ∷ rtpmap_text r)
unfolding print_attribute snprintf_into snprintf parse_attribute_by parse_found
rtpmap_attribute-IsReadBack r w =
    let text = rtpmap_text r in
    let short = length-rtpmap_text r w in
    let whole = take_all 97 (valued_text (codes "rtpmap") text) (omega (arith, short)) in
    let trimmed : ltrim text ≡ text = ltrim-rtpmap_text r in
    (
      rw (c_str_fits 20 r.encoding (omega (arith, w.3)), whole)
          (strncpy_all_fits 86 (valued_text (codes "rtpmap") text) (omega (arith, short))),
      parse_attribute-valued text trimmed ∙ rw (rtpmap_parse-rtpmap_text r w) refl,
    )

pub rtpmap_text-IsFree_line : (r : Rtpmap) → IsRtpmap r → IsFree crlf (rtpmap_text r)
unfolding rtpmap_text
rtpmap_text-IsFree_line r (pt, word, free, fits, clock, channels) =
    number r.pt (b' ' ∷ encoding_data r) (
      refl,
      All-append _ r.encoding _ (IsSolid-IsFree_line _ word.1)
          (refl, number r.clock (channels_text r.channels) (channels_free r.channels)),
    )
  where
    number : (n : ℕ) (t : Bytes) → IsFree crlf t → IsFree crlf (decimal n ++ t)
    number n t f = All-append _ (decimal n) t (IsSolid-IsFree_line _ (decimal-IsWord n).1) f

    channels_free : (n : ℕ) → IsFree crlf (channels_text n)
    channels_free n = elim (Bool-cases (ltb 1 n)) [
      | inl many ↦ rw many (refl, IsSolid-IsFree_line _ (decimal-IsWord n).1)
      | inr one ↦ rw one tt
    ]
