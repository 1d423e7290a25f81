-- ===== src/Sip/Message/Parse/Body.antt =====
-- The body that a parse takes from behind the empty line.
use sipster.Text.{npos, at}
use sipster.Base.{
  take_all, leb, length-drop, sym, none, ap, true, false, some, ◌≤◌, Option, ℕ, ◌<◌, [], ◌≡◌, refl,
  ◌∙◌, arith, ok, length, Bytes,
}
use sipster.Text.{ltrim, strncpy_bare, Position}
use sipster.Text.Token.Split.{get_rest-remaining, remaining}
use sipster.Sip.Message.{Response, ContentBody, Request}
use sipster.Sip.Message.Parse.{
  response_content, response_content_if, response_body, response_data, at, request_content_if,
  request_body, has_body, request_content, body_type, Seen,
}

-- What a message sends behind its headers.
abbrev pub sent : Option ContentBody → Bytes
sent none = []
sent (some b) = b.body

-- A body that is not empty, does not begin with a blank and fits in its array, with the headers that
-- describe it.
pub record IsBody (b : ContentBody) (s : Seen) : Type 0 where
  pub seen_length : s.content_length ≡ some b.length
  pub seen_type : s.content_type ≡ some b.content_type
  pub exact : b.length ≡ length b.body
  pub not_empty : 0 < b.length
  pub trimmed : ltrim b.body ≡ b.body
  pub fits : b.length ≤ 1500
  pub type_fits : length b.content_type ≤ 150

abbrev pub IsContent : Option ContentBody → Seen → Type 0
IsContent none s = Unit
IsContent (some b) s = IsBody b s

has_body-nil :
    (input : Bytes) (q : Position) (n : ℕ)
    → remaining input q ≡ []
    → has_body n q (length input) ≡ false
has_body-nil input npos n e = refl
has_body-nil input (at pos) n e = ground (arith, ap length e, length-drop pos input)

has_body-body :
    (input body : Bytes) (q : Position)
    → remaining input q ≡ body
    → 0 < length body
    → has_body (length body) q (length input) ≡ true
has_body-body input body npos e some_left = absurd (omega (arith, ap length e, some_left))
has_body-body input body (at pos) e some_left =
    ground (arith, ap length e, length-drop pos input, some_left)

body_type-fits : (ct : Bytes) → length ct ≤ 150 → body_type (some ct) ≡ ok ct
unfolding body_type strncpy_bare
body_type-fits ct h = ground arith

strncpy_bare_fits : (cap : ℕ) (s : Bytes) → length s ≤ cap → strncpy_bare cap s ≡ ok s
unfolding strncpy_bare
strncpy_bare_fits cap s h = ground arith

request_body-IsBody :
    (input : Bytes) (q : Position) (s : Seen) (b : ContentBody)
    → remaining input q ≡ b.body
    → IsBody b s
    → request_body input q s.content_type ≡ ok b
unfolding request_body
request_body-IsBody input q s b e v =
    let rest = (get_rest-remaining input q).0 ∙ e in
    rw
      (
        v.seen_type,
        body_type-fits b.content_type v.type_fits,
        rest,
        v.trimmed,
        strncpy_bare_fits 1500 b.body (omega (arith, v.exact, v.fits)),
      )
      (ap (λ n. ok (record b { length = n })) (sym v.exact))

-- The body behind the empty line is taken whole, and none where none was sent.
pub request_content-sent :
    (input : Bytes) (q : Position) (s : Seen) (c : Option ContentBody) (r : Request)
    → remaining input q ≡ sent c
    → IsContent c s
    → request_content input (length input) q s s.content_length (record r { content = none })
      ≡ ok (record r { content = c })
unfolding request_content request_content_if
request_content-sent input q s none r e v = go s.content_length
  where
    go :
        (n : Option ℕ)
        → request_content input (length input) q s n (record r { content = none })
          ≡ ok (record r { content = none })
    go none = refl
    go (some n) = rw (has_body-nil input q n e) refl
request_content-sent input q s (some b) r e v =
    let there : has_body b.length q (length input) ≡ true =
      ap (λ n. has_body n q (length input)) v.exact
      ∙ has_body-body input b.body q e (omega (arith, v.exact, v.not_empty)) in
    rw (v.seen_length, there, request_body-IsBody input q s b e v) refl

response_body-IsBody :
    (input : Bytes) (q : Position) (s : Seen) (b : ContentBody)
    → remaining input q ≡ b.body
    → IsBody b s
    → response_body input q b.length s.content_type ≡ ok b
unfolding response_body response_data
response_body-IsBody input q s b e v =
    let rest = (get_rest-remaining input q).0 ∙ e in
    let room : leb b.length 1500 ≡ true = ground (arith, v.fits) in
    rw
      (
        v.seen_type,
        body_type-fits b.content_type v.type_fits,
        rest,
        v.trimmed,
        room,
        take_all b.length b.body (omega (arith, v.exact)),
      )
      refl

-- The same for a response, of which as many bytes are taken as Content-Length says.
pub response_content-sent :
    (input : Bytes) (q : Position) (s : Seen) (c : Option ContentBody) (r : Response)
    → remaining input q ≡ sent c
    → IsContent c s
    → response_content input (length input) q s s.content_length (record r { content = none })
      ≡ ok (record r { content = c })
unfolding response_content response_content_if
response_content-sent input q s none r e v = go s.content_length
  where
    go :
        (n : Option ℕ)
        → response_content input (length input) q s n (record r { content = none })
          ≡ ok (record r { content = none })
    go none = refl
    go (some n) = rw (has_body-nil input q n e) refl
response_content-sent input q s (some b) r e v =
    let there : has_body b.length q (length input) ≡ true =
      ap (λ n. has_body n q (length input)) v.exact
      ∙ has_body-body input b.body q e (omega (arith, v.exact, v.not_empty)) in
    rw (v.seen_length, there, response_body-IsBody input q s b e v) refl
