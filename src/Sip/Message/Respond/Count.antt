-- ===== src/Sip/Message/Respond/Count.antt =====
-- How many headers of each kind a response has.
use sipster.Sip.Message.Print.{is_missing}
use sipster.Base.{
  ℕ, zero, suc, Bool, true, false, List, [], ◌∷◌, Option, none, some, ◌≡◌, ◌⊎◌, inl, inr, refl, sym,
  ap, ◌∙◌, arith, ok, element, bind-eq-ok, Bytes, if◌then◌else◌, Bool-cases, get_elem?,
}
use sipster.Sip.Enums.{HeaderId, contact, same_header, content_type, content_length}
use sipster.Sip.Status.{statuses, status_phrases}
use sipster.Sip.Header.{Header, Content}
use sipster.Sip.Chain.{
  Chain, Leaf, Found, empty_chain, holds, collect, append_new_header, get_header, walk, walk_from,
}
use sipster.Sip.Chain.Laws.{IsLinked, collect-count, get_header-append_new_header_other}
use sipster.Sip.Message.{ContentBody, Request, Response}
use sipster.Sip.Message.Respond.{
  answer_leaves, response_tag, update_leaves, update_first, update_from, put_content,
  describe_content, describe_type, create_response,
}
use sipster.Sip.Message.Respond.Laws.{answer_leaves-count}

abbrev rewritten : (Content → Content) → Option Header → Option Header
rewritten f o = elim o [ none ↦ none | some h ↦ some (record h { content = f h.content }) ]

holds-rewritten :
    (i : HeaderId) (f : Content → Content) (o : Option Header) → holds i (rewritten f o) ≡ holds i o
holds-rewritten i f none = refl
holds-rewritten i f (some h) = refl

collect-count_same :
    (i : HeaderId) (l m : Leaf) (ls ms : List Leaf)
    → holds i l.header ≡ holds i m.header
    → (collect i ls).count ≡ (collect i ms).count
    → (collect i (l ∷ ls)).count ≡ (collect i (m ∷ ms)).count
collect-count_same i l m ls ms e f = rw (collect-count i l ls, collect-count i m ms, e, f) refl

update_leaves-count :
    (i j : HeaderId) (f : Content → Content) (ls : List Leaf)
    → (collect i (update_leaves j f ls)).count ≡ (collect i ls).count
unfolding update_leaves
update_leaves-count i j f [] = refl
update_leaves-count i j f (l ∷ ls) = elim (Bool-cases (holds j l.header)) [
  | inl here ↦ rw here (
      collect-count_same i (record l { header = rewritten f l.header }) l ls ls
        (holds-rewritten i f l.header) refl)
  | inr later ↦
      rw later
        (collect-count_same i l l (update_leaves j f ls) ls refl (update_leaves-count i j f ls))
]

-- A message whose first leaf is linked, or which has no linked leaf.
abbrev IsRooted : Chain → Type 0
IsRooted c = (c.first_header ≡ none) ⊎ (c.first_header ≡ some 0)

abbrev Keeps : HeaderId → Chain → Chain → Type 0
Keeps i c d = IsRooted d × ((get_header i d).count ≡ (get_header i c).count)

append_new_header-Keeps :
    (i : HeaderId) (c : Chain) (h : Header)
    → IsRooted c
    → same_header h.header_id i ≡ false
    → Keeps i c (append_new_header c h)
unfolding append_new_header get_header collect
append_new_header-Keeps i c h (inl e) other = (inl e, rw e refl)
append_new_header-Keeps i c h (inr e) other =
    (inr e, ap (λ (f : Found). f.count) (get_header-append_new_header_other i c h (inr e) other))

update_first-Keeps :
    (i j : HeaderId) (f : Content → Content) (c : Chain)
    → IsRooted c
    → Keeps i c (update_first j f c)
unfolding update_first update_from get_header
update_first-Keeps i j f c v = go c.first_header refl v
  where
    go :
        (o : Option ℕ)
        → c.first_header ≡ o
        → (o ≡ none) ⊎ (o ≡ some 0)
        → Keeps i c (update_from o j f c)
    go none e v = (inl e, refl)
    go (some zero) e v = (
      inr e,
      ap (λ o. (collect i (walk_from (update_leaves j f c.leaves) o)).count) e
          ∙ update_leaves-count i j f c.leaves
          ∙ ap (λ o. (collect i (walk_from c.leaves o)).count) (sym e),
    )
    go (some (suc n)) e (inl v) = cc
    go (some (suc n)) e (inr v) = ground arith

put_content-Keeps :
    (i j : HeaderId) (f : Content → Content) (new : Content) (c : Chain)
    → IsRooted c
    → same_header j i ≡ false
    → Keeps i c (put_content j f new c)
unfolding put_content
put_content-Keeps i j f new c v other = go (is_missing (get_header j c))
  where
    go :
        (b : Bool)
        → Keeps i c (
            if b
            then append_new_header c (record { header_id = j; content = new })
            else update_first j f c)
    go true = append_new_header-Keeps i c _ v other
    go false = update_first-Keeps i j f c v

describe_content-Keeps :
    (i : HeaderId) (b : Option ContentBody) (c : Chain)
    → IsRooted c
    → same_header content_type i ≡ false
    → same_header content_length i ≡ false
    → Keeps i c (describe_content b c)
unfolding describe_content describe_type
describe_content-Keeps i none c v t n = put_content-Keeps i content_length _ _ c v n
describe_content-Keeps i (some b) c v t n =
    let typed = put_content-Keeps i content_type _ _ c v t in
    let sized = put_content-Keeps i content_length _ _ _ typed.0 n in (sized.0, sized.1 ∙ typed.1)

-- A response has as many headers of each id as the request that it answers, except that it has no
-- Contact; nothing is said of Content-Type and Content-Length.
pub create_response-count :
    (i : HeaderId) (rport : ℕ) (r : Request) (tag : Option Bytes) (status : ℕ)
    (body : Option ContentBody) {resp : Response}
    → same_header content_type i ≡ false
    → same_header content_length i ≡ false
    → create_response rport r tag status body ≡ ok resp
    → (get_header i resp.headers).count
      ≡ (if same_header i contact then 0 else (get_header i r.headers).count)
unfolding create_response get_header collect
create_response-count i rport r tag status body {resp = resp} t n e =
    let (code, found, e1) = bind-eq-ok (element (get_elem? statuses status)) _ e in
    let (phrase, named, e2) = bind-eq-ok (element (get_elem? status_phrases status)) _ e1 in
    let (param, tagged, e3) = bind-eq-ok (response_tag status tag) _ e2 in
    let (c, answered, e4) =
      bind-eq-ok (answer_leaves rport param (walk r.headers) empty_chain) _ e3 in
    let counted =
      answer_leaves-count i rport param (walk r.headers) empty_chain (inl (refl, refl)) answered in
    let kept = describe_content-Keeps i body c (rooted c counted.0) t n in
    let made : resp.headers ≡ describe_content body c =
      ap (λ (x : Response). x.headers) (sym (ok-ok e4)) in
    ap (λ (d : Chain). (get_header i d).count) made ∙ kept.1 ∙ counted.1 ∙ omega arith
  where
    rooted : (c : Chain) → IsLinked c → IsRooted c
    rooted c (inl v) = inl v.1
    rooted c (inr v) = inr v

    ok-ok : {x y : Response} → ok x ≡ ok y → x ≡ y
    ok-ok e = cc
