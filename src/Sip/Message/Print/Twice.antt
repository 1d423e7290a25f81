-- ===== src/Sip/Message/Print/Twice.antt =====
-- A message that is printed a second time.
use sipster.Base.{
  if◌then◌else◌, ℕ, zero, suc, List, [], ◌∷◌, ◌++◌, Option, none, some, map, true, false, Bool, ◌≡◌,
  refl, ap, sym, ◌∙◌, ok, fault, null_deref, bind-eq-ok, Bytes, take, drop,
}
use sipster.Sip.Header.{Header}
use sipster.Sip.Enums.{content_type, content_length}
use sipster.Sip.Chain.{Chain, Leaf, append_new_header, get_header, walk, walk_from}
use sipster.Sip.Message.{ContentBody, Request, Response}
use sipster.Sip.Message.Line.{request_print_line, response_print_line}
use sipster.Sip.Message.Print.{
  emptied, consume, consume_from, complete_headers, add_content_type, add_content_length,
  is_missing, print_leaves, print_message, request_print, response_print,
}

-- The walk of a header list begins with that leaf.
abbrev Meets : Leaf → Chain → Type 0
Meets l c = (ls : List Leaf) × (walk c ≡ l ∷ ls)

drop-append_cons :
    (n : ℕ) (xs ys zs : List Leaf) (l : Leaf)
    → drop n xs ≡ l ∷ ys
    → drop n (xs ++ zs) ≡ l ∷ (ys ++ zs)
drop-append_cons zero xs ys zs l e = ap (λ s. s ++ zs) e
drop-append_cons (suc n) [] ys zs l e = cc
drop-append_cons (suc n) (x ∷ xs) ys zs l e = drop-append_cons n xs ys zs l e

append_new_header-Meets :
    (l : Leaf) (c : Chain) (h : Header) → Meets l c → Meets l (append_new_header c h)
unfolding append_new_header
append_new_header-Meets l c h (ls, e) = go c.first_header e
  where
    go :
        (o : Option ℕ)
        → walk_from c.leaves o ≡ l ∷ ls
        → (ms : List Leaf) × (walk_from (append_new_header c h).leaves o ≡ l ∷ ms)
    go none e = cc
    go (some n) e = (_, drop-append_cons n c.leaves ls _ l e)

if-Meets :
    (l : Leaf) (b : Bool) (c d : Chain) → Meets l c → Meets l d → Meets l (if b then c else d)
if-Meets l true c d v w = v
if-Meets l false c d v w = w

add_content_type-Meets :
    (l : Leaf) (b : Option ContentBody) (c : Chain) → Meets l c → Meets l (add_content_type b c)
unfolding add_content_type
add_content_type-Meets l none c v = v
add_content_type-Meets l (some b) c v =
    if-Meets l (is_missing (get_header content_type c)) _ _ (append_new_header-Meets l c _ v) v

complete_headers-Meets :
    (l : Leaf) (b : Option ContentBody) (c : Chain) → Meets l c → Meets l (complete_headers b c)
unfolding complete_headers add_content_length
complete_headers-Meets l b c v =
    let typed = add_content_type-Meets l b c v in
    if-Meets l (is_missing (get_header content_length (add_content_type b c))) _ _
      (append_new_header-Meets l (add_content_type b c) _ typed) typed

drop-emptied :
    (n : ℕ) (ls : List Leaf)
    → drop n (take n ls ++ map emptied (drop n ls)) ≡ map emptied (drop n ls)
drop-emptied zero ls = refl
drop-emptied (suc n) [] = refl
drop-emptied (suc n) (l ∷ ls) = drop-emptied n ls

consume-Meets : (l : Leaf) (c : Chain) → Meets l c → Meets (emptied l) (consume c)
unfolding consume consume_from
consume-Meets l c (ls, e) = go c.first_header refl
  where
    go : (o : Option ℕ) → c.first_header ≡ o → Meets (emptied l) (consume_from o c)
    go none f = let nothing : [] ≡ l ∷ ls = ap (walk_from c.leaves) (sym f) ∙ e in cc
    go (some n) f =
        let met : drop n c.leaves ≡ l ∷ ls = ap (walk_from c.leaves) (sym f) ∙ e in
        (
          map emptied ls,
          ap (walk_from (take n c.leaves ++ map emptied (drop n c.leaves))) f
              ∙ drop-emptied n c.leaves
              ∙ ap (map emptied) met,
        )

print_message-emptied :
    (line : Bytes) (b : Option ContentBody) (c : Chain) (l : Leaf)
    → Meets (emptied l) c
    → print_message line b c ≡ fault null_deref
unfolding print_message print_leaves
print_message-emptied line b c l (ls, e) = rw e refl

-- The headers that a print leaves behind cannot be printed once more.
print_message-consume :
    (line : Bytes) (b : Option ContentBody) (c : Chain) (l : Leaf)
    → Meets l c
    → print_message line b (complete_headers b (consume (complete_headers b c))) ≡ fault null_deref
print_message-consume line b c l v =
    print_message-emptied line b _ l
      (complete_headers-Meets (emptied l) b _ (consume-Meets l _ (complete_headers-Meets l b c v)))

ok-ok {ℓ} : {A : Type ℓ} {x y : A} → ok x ≡ ok y → x ≡ y
ok-ok e = cc

-- A request with a header that has been printed cannot be printed again: its headers are gone, and the
-- second print reads through a NULL pointer.
pub request_print-request_print :
    (r : Request) (l : Leaf) (ls : List Leaf) {out : Bytes} {r' : Request}
    → walk r.headers ≡ l ∷ ls
    → request_print r ≡ ok (out, r')
    → request_print r' ≡ fault null_deref
unfolding request_print
request_print-request_print r l ls {r' = r'} e printed =
    let (text, made, rest) =
      bind-eq-ok
        (print_message (request_print_line r.request_line) r.content
          (complete_headers r.content r.headers))
        _ printed in
    let left : record r { headers = consume (complete_headers r.content r.headers) } ≡ r' =
      ap (λ (p : Bytes × Request). p.1) (ok-ok rest) in
    ap request_print (sym left)
    ∙ rw (print_message-consume (request_print_line r.request_line) r.content r.headers l (ls, e))
        refl

-- A response with a header that has been printed cannot be printed again: the second print reads
-- through a NULL pointer.
pub response_print-response_print :
    (r : Response) (l : Leaf) (ls : List Leaf) {out : Bytes} {r' : Response}
    → walk r.headers ≡ l ∷ ls
    → response_print r ≡ ok (out, r')
    → response_print r' ≡ fault null_deref
unfolding response_print
response_print-response_print r l ls {r' = r'} e printed =
    let (text, made, rest) =
      bind-eq-ok
        (print_message (response_print_line r.response_line) r.content
          (complete_headers r.content r.headers))
        _ printed in
    let left : record r { headers = consume (complete_headers r.content r.headers) } ≡ r' =
      ap (λ (p : Bytes × Response). p.1) (ok-ok rest) in
    ap response_print (sym left)
    ∙ rw (print_message-consume (response_print_line r.response_line) r.content r.headers l (ls, e))
        refl
