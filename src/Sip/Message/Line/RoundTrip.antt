-- ===== src/Sip/Message/Line/RoundTrip.antt =====
-- First lines that are printed and parsed again.
use sipster.Base.{
  ℕ, zero, suc, ◌+◌, ◌<◌, ◌≤◌, List, [], ◌∷◌, ◌++◌, some, ◌≡◌, ◌≢◌, refl, ap, ◌∙◌, arith, Bytes,
  length, get_elem?, take_all,
}
use sipster.Text.{at, next_token, decimal, snprintf}
use sipster.Text.Token.Split.{IsFree, next_token_field, get_rest-remaining}
use sipster.Text.Number.RoundTrip.{decimal-IsFree, atoi-decimal}
use sipster.Sip.Enums.{return_ok, Method, method_none, invite, method_name, find_method, methods}
use sipster.Sip.Status.{statuses, status_phrases, find_status}
use sipster.Sip.Message.{RequestLine, ResponseLine}
use sipster.Sip.Message.Line.{
  parse_request_line, parse_response_line, request_print_line, response_print_line, spaced,
}

-- Every method's name is found again, and holds no blank.
pub find_method-method_name :
    (m : Method) → m ≢ method_none → find_method (method_name m) methods ≡ some (method_name m, m)
unfolding find_method
find_method-method_name method_none h = absurd (h refl)
find_method-method_name invite h = refl
find_method-method_name _ h = refl

pub method_name-IsFree : (m : Method) → IsFree (b' ' ∷ []) (method_name m)
method_name-IsFree method_none = tt
method_name-IsFree invite = ground arith
method_name-IsFree _ = ground arith

-- A request line with a method of the table, a request URI with no blank, and any version, comes
-- back from its print, if the three parts and two blanks have at most 149 bytes.
pub parse_request_line-request_print_line :
    (m : Method) (uri version : Bytes) (old : RequestLine)
    → m ≢ method_none
    → IsFree (b' ' ∷ []) uri
    → length (spaced (method_name m) uri version) ≤ 149
    → let line : RequestLine = record {
      method = some (method_name m);
      method_id = m;
      request_uri = some uri;
      version = some version;
    } in
      parse_request_line (request_print_line line) old ≡ (return_ok, line)
unfolding parse_request_line request_print_line snprintf
parse_request_line-request_print_line m uri version old known free fits =
    let text = spaced (method_name m) uri version in
    let whole = take_all 149 text fits in
    let p1 = (next_token text (b' ' ∷ []) (at 0)).1 in
    let first =
      next_token_field text (method_name m) (uri ++ b' ' ∷ version) b' ' (at 0) refl
        (method_name-IsFree m) in
    let second = next_token_field text uri version b' ' p1 first.1 free in
    let third = get_rest-remaining text (next_token text (b' ' ∷ []) p1).1 in
    rw (whole, first.0, find_method-method_name m known, second.0, third.0, second.1) refl

-- The codes of the table rise, and have three digits.
abbrev Ascends : ℕ → List ℕ → Type 0
Ascends lo [] = Unit
Ascends lo (c ∷ cs) = (lo < c) × (c < 1000) × Ascends c cs

statuses-Ascends : Ascends 0 statuses
statuses-Ascends = omega arith

Ascends-get_elem? :
    (lo i c : ℕ) (cs : List ℕ) → Ascends lo cs → get_elem? cs i ≡ some c → (lo < c) × (c < 1000)
Ascends-get_elem? lo i c [] a e = cc
Ascends-get_elem? lo zero c (x ∷ cs) a e = ground arith
Ascends-get_elem? lo (suc i) c (x ∷ cs) a e =
    let ih = Ascends-get_elem? x i c cs a.2 e in (omega arith, ih.1)

find_status-get_elem? :
    (lo k i c : ℕ) (cs : List ℕ)
    → Ascends lo cs
    → get_elem? cs i ≡ some c
    → find_status c k cs ≡ some (k + i)
unfolding find_status
find_status-get_elem? lo k i c [] a e = cc
find_status-get_elem? lo k zero c (x ∷ cs) a e = ground arith
find_status-get_elem? lo k (suc i) c (x ∷ cs) a e =
    ground (arith, Ascends-get_elem? x i c cs a.2 e, find_status-get_elem? x (suc k) i c cs a.2 e)

-- A status line comes back from its print for each of the 71 statuses: the version if it holds no
-- blank, the code, the index and the phrase of the tables, as long as it has at most 149 bytes. The
-- method, which is no part of the line, stays.
pub parse_response_line-response_print_line :
    (i code : ℕ) (phrase version : Bytes) (old : ResponseLine)
    → get_elem? statuses i ≡ some code
    → get_elem? status_phrases i ≡ some phrase
    → IsFree (b' ' ∷ []) version
    → length (spaced version (decimal code) phrase) ≤ 149
    → let line : ResponseLine = record old {
      version = some version;
      status_code = some code;
      status = i;
      reason = some phrase;
    } in
      parse_response_line (response_print_line line) old ≡ (return_ok, line)
unfolding parse_response_line response_print_line snprintf
parse_response_line-response_print_line i code phrase version old c r free fits =
    let text = spaced version (decimal code) phrase in
    let whole = take_all 149 text fits in
    let p1 = (next_token text (b' ' ∷ []) (at 0)).1 in
    let first =
      next_token_field text version (decimal code ++ b' ' ∷ phrase) b' ' (at 0) refl free in
    let second =
      next_token_field text (decimal code) phrase b' ' p1 first.1 (decimal-IsFree code b' ' refl) in
    let small = Ascends-get_elem? 0 i code statuses statuses-Ascends c in
    let found : find_status code 0 statuses ≡ some i =
      find_status-get_elem? 0 0 i code statuses statuses-Ascends c ∙ ap some (omega arith) in
    rw (whole, first.0, second.0, atoi-decimal code (omega arith), found, c, r) refl
