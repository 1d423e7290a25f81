-- ===== src/Sip/Header/Parse/Cut.antt =====
-- Header lines that are longer than the 60 bytes of the print buffer.
use sipster.Base.{
  if◌then◌else◌, Bool, ℕ, zero, suc, ◌-◌, ◌<◌, ◌≤◌, [], ◌∷◌, ◌++◌, some, true, false, ◌≡◌, ◌⊎◌, inl,
  inr, refl, sym, ap, ◌∙◌, arith, ok, Bytes, length, take, get_elem?, take_all, length-append,
  length-take,
}
use sipster.Text.{ltrim, snprintf, is_space}
use sipster.Sip.Enums.{HeaderId, header_index}
use sipster.Sip.Inet.{Resolver}
use sipster.Sip.Header.{HeaderMap, string_content, string_codec, ci_codec, header_prototypes}
use sipster.Sip.Header.Parse.{parse_header}
use sipster.Sip.Header.Print.{labelled, print_content, print_header}
use sipster.Sip.Header.Parse.RoundTrip.{print_header_string-IsReadBack, header_prototypes-IsEntry}
use sipster.Sip.Header.Parse.Fields.{c_str_fits}

take-append_past :
    (n : ℕ) (xs ys : Bytes) → length xs ≤ n → take n (xs ++ ys) ≡ xs ++ take (n - length xs) ys
take-append_past n [] ys h = ap (λ k. take k ys) (omega arith)
take-append_past zero (x ∷ xs) ys h = absurd (omega arith)
take-append_past (suc n) (x ∷ xs) ys h =
    ap (◌∷◌ x) (take-append_past n xs ys (omega arith) ∙ ap (λ k. xs ++ take k ys) (omega arith))

length-ltrim : (s : Bytes) → length (ltrim s) ≤ length s
unfolding ltrim
length-ltrim [] = omega arith
length-ltrim (c ∷ cs) = ground (arith, length-ltrim cs)

ltrim-take : (n : ℕ) (s : Bytes) → ltrim s ≡ s → ltrim (take n s) ≡ take n s
unfolding ltrim
ltrim-take zero s e = refl
ltrim-take (suc n) [] e = refl
ltrim-take (suc n) (c ∷ cs) e = go (is_space c) e
  where
    go :
        (b : Bool)
        → (if b then ltrim cs else c ∷ cs) ≡ c ∷ cs
        → (if b then ltrim (take n cs) else c ∷ take n cs) ≡ c ∷ take n cs
    go false e = refl
    go true e = absurd (omega (arith, ap length e, length-ltrim cs))

-- What a plain text or a Call-ID is printed as.
print_header_string_lem :
    (i : HeaderId) (m : HeaderMap) (text : Bytes)
    → get_elem? header_prototypes (header_index i) ≡ some m
    → (m.codec ≡ string_codec) ⊎ (m.codec ≡ ci_codec)
    → length text < 300
    → print_header (record { header_id = i; content = string_content text })
      ≡ ok (some (take 59 (labelled m.header_name text)))
unfolding print_header print_content snprintf
print_header_string_lem i m text there (inl codec) fits =
    rw (there, codec, c_str_fits 300 text fits) refl
print_header_string_lem i m text there (inr codec) fits =
    rw (there, codec, c_str_fits 300 text fits) refl

take-labelled :
    (name text : Bytes)
    → length name ≤ 19
    → take 59 (labelled name text) ≡ labelled name (take (57 - length name) text)
take-labelled name text h =
    take-append_past 59 name (b':' ∷ b' ' ∷ text) (omega arith)
    ∙ ap (λ n. name ++ take n (b':' ∷ b' ' ∷ text)) left
  where
    left : 59 - length name ≡ suc (suc (57 - length name))
    left = omega arith

-- Of a plain text or a Call-ID that does not begin with white space, has at most the 299 bytes of its
-- array, and is printed and parsed again, the first 57 bytes less those of the header's name are left.
pub print_header_string-take :
    (g : Resolver) (i : HeaderId) (m : HeaderMap) (text : Bytes)
    → get_elem? header_prototypes (header_index i) ≡ some m
    → (m.codec ≡ string_codec) ⊎ (m.codec ≡ ci_codec)
    → ltrim text ≡ text
    → length text < 300
    → (line : Bytes) × (print_header (record { header_id = i; content = string_content text })
        ≡ ok (some line))
      × (parse_header g line
          ≡ ok (
              some (record {
                header_id = i;
                content = string_content (take (57 - length m.header_name) text);
              })))
print_header_string-take g i m text there codec trimmed fits =
    let short = take (57 - length m.header_name) text in
    let v = header_prototypes-IsEntry i m there in
    let small : length short ≤ 57 - length m.header_name =
      omega (arith, length-take (57 - length m.header_name) text) in
    let whole : length (labelled m.header_name short) ≤ 59 =
      omega (arith, length-append m.header_name (b':' ∷ b' ' ∷ short), small, v.3) in
    let (line, printed, parsed) =
      print_header_string-IsReadBack g i m short there codec (ltrim-take _ text trimmed) whole in
    let same =
      take-labelled m.header_name text v.3
      ∙ sym (take_all 59 (labelled m.header_name short) whole) in
    (
      line,
      print_header_string_lem i m text there codec fits
          ∙ ap (λ t. ok (some t)) same
          ∙ sym (print_header_string_lem i m short there codec (omega (arith, small)))
          ∙ printed,
      parsed,
    )
