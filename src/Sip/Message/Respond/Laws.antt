-- ===== src/Sip/Message/Respond/Laws.antt =====
-- Which headers a response has, and when it needs the call leg.
use sipster.Base.{
  ℕ, ◌+◌, Bool, true, false, List, [], ◌∷◌, ◌++◌, Option, none, some, ◌≡◌, ◌⊎◌, inl, inr, refl, ap,
  ◌∙◌, arith, ok, deref, bind-eq-ok, Bytes, if◌then◌else◌, get_elem?,
}
use sipster.Sip.Enums.{HeaderId, contact, same_header, header_index}
use sipster.Sip.Parameter.{Parameter}
use sipster.Sip.Header.{Header, header_prototypes}
use sipster.Sip.Header.Clone.{header_clone, clone_content}
use sipster.Sip.Chain.{Chain, Leaf, Found, collect, link_header, get_header}
use sipster.Sip.Chain.Laws.{IsLinked, link_header-IsLinked, get_header-link_header, collect-count}
use sipster.Sip.Message.{ContentBody, Request}
use sipster.Sip.Message.Respond.{
  answer_header, answer_leaves, link_answer, response_tag, is_success, create_response,
}

-- The parts of a response that do not come from a 2xx status are the same with any leg, or none.
pub create_response-without_leg :
    (rport : ℕ) (r : Request) (tag : Option Bytes) (status : ℕ) (body : Option ContentBody)
    → is_success status ≡ false
    → create_response rport r tag status body ≡ create_response rport r none status body
unfolding create_response response_tag
create_response-without_leg rport r tag status body e = rw e

header_clone-id : (h : Header) {c : Header} → header_clone h ≡ ok c → c.header_id ≡ h.header_id
unfolding header_clone
header_clone-id h e =
    let (m, found, rest) =
      bind-eq-ok (deref (get_elem? header_prototypes (header_index h.header_id))) _ e in
    let (content, cloned, made) = bind-eq-ok (clone_content m.codec h.content) _ rest in
    ground arith

answer_header-id :
    (rport : ℕ) (tag : Option Parameter) (i : HeaderId) (h : Header) {a : Header}
    → answer_header rport tag i h ≡ some a
    → a.header_id ≡ h.header_id
unfolding answer_header
answer_header-id rport tag HeaderId.contact h e = cc
answer_header-id rport tag HeaderId.via h e = ground arith
answer_header-id rport tag HeaderId.to h e = ground arith
answer_header-id rport tag _ h e = ground arith

-- A header is left out of the answer exactly if it is a Contact.
answer_header-contact :
    (rport : ℕ) (tag : Option Parameter) (i : HeaderId) (h : Header)
    → ((answer_header rport tag i h ≡ none) × (same_header i contact ≡ true))
      ⊎ ((a : Header) × (answer_header rport tag i h ≡ some a) × (same_header i contact ≡ false))
unfolding answer_header
answer_header-contact rport tag HeaderId.contact h = inl (refl, refl)
answer_header-contact rport tag HeaderId.via h = inr (_, refl, refl)
answer_header-contact rport tag HeaderId.to h = inr (_, refl, refl)
answer_header-contact rport tag _ h = inr (_, refl, refl)

-- The number of headers of an id that an answer takes from these leaves.
abbrev pub taken : HeaderId → List Leaf → ℕ
taken i ls = if same_header i contact then 0 else (collect i ls).count

abbrev one_if : Bool → ℕ
one_if b = if b then 1 else 0

taken-cons :
    (i : HeaderId) (l : Leaf) (ls : List Leaf) (h : Header)
    → l.header ≡ some h
    → taken i (l ∷ ls)
      ≡ taken i ls + (if same_header i contact then 0 else one_if (same_header h.header_id i))
taken-cons i l ls h e =
    rw (collect-count i l ls, e) (go (same_header i contact) (same_header h.header_id i))
  where
    go :
        (b d : Bool)
        → (if b then 0 else (if d then (collect i ls).count + 1 else (collect i ls).count))
          ≡ (if b then 0 else (collect i ls).count) + (if b then 0 else one_if d)
    go b d = ground arith

count-link_header :
    (i : HeaderId) (c : Chain) (h : Header)
    → IsLinked c
    → (get_header i (link_header c h)).count
      ≡ (get_header i c).count + one_if (same_header h.header_id i)
count-link_header i c h v =
    ap (λ (f : Found). f.count) (get_header-link_header i c h v) ∙ go (same_header h.header_id i)
  where
    go :
        (b : Bool)
        → (if b
            then record {
              headers = (get_header i c).headers ++ some h ∷ [];
              count = (get_header i c).count + 1;
            }
            else get_header i c).count
          ≡ (get_header i c).count + one_if b
    go true = refl
    go false = omega arith

skipped-id :
    (i j : HeaderId)
    → same_header j contact ≡ true
    → (if same_header i contact then 0 else one_if (same_header j i)) ≡ 0
skipped-id i j e = ground arith

linked-id :
    (i j : HeaderId)
    → same_header j contact ≡ false
    → (if same_header i contact then 0 else one_if (same_header j i)) ≡ one_if (same_header j i)
linked-id i j e = ground arith

pub answer_leaves-count :
    (i : HeaderId) (rport : ℕ) (tag : Option Parameter) (ls : List Leaf) (c : Chain) {c' : Chain}
    → IsLinked c
    → answer_leaves rport tag ls c ≡ ok c'
    → IsLinked c' × ((get_header i c').count ≡ (get_header i c).count + taken i ls)
unfolding answer_leaves link_answer collect
answer_leaves-count i rport tag [] c {c' = c'} v e =
    let same : c ≡ c' = cc in (rw (← same) v, rw (← same) (go (same_header i contact)))
  where
    go : (b : Bool) → (get_header i c).count ≡ (get_header i c).count + (if b then 0 else 0)
    go b = ground arith
answer_leaves-count i rport tag (l ∷ ls) c v e =
    let (h, there, e1) = bind-eq-ok (deref l.header) _ e in
    let (copy, cloned, e2) = bind-eq-ok (header_clone h) _ e1 in
    let held : l.header ≡ some h = ground arith in
    let id = header_clone-id h cloned in
    let step = taken-cons i l ls h held in
    elim (answer_header-contact rport tag copy.header_id copy) [
      | inl (left, is_contact) ↦
          let ih = answer_leaves-count i rport tag ls c v (rw left at e2) in
          let skip = skipped-id i h.header_id (rw (← id) is_contact) in
          (ih.0, omega (arith, ih.1, step, skip))
      | inr (a, made, not_contact) ↦
          let ih =
            answer_leaves-count i rport tag ls (link_header c a) (link_header-IsLinked c a v)
              (rw made at e2) in
          let same =
            ap (λ j. one_if (same_header j i))
              (answer_header-id rport tag copy.header_id copy made ∙ id) in
          let link = linked-id i h.header_id (rw (← id) not_contact) in
          let more = count-link_header i c a v in
          (ih.0, omega (arith, ih.1, step, link, same, more))
    ]
