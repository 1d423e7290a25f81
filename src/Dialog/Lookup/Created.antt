-- ===== src/Dialog/Lookup/Created.antt =====
-- A leg that a request creates, and the requests that follow in its dialog.
use sipster.Base.{
  ℕ, zero, suc, Bool, true, [], ◌∷◌, ◌++◌, List, Option, none, some, ◌≡◌, refl, sym, ap, ◌∙◌, arith,
  ok, deref, bind-eq-ok, Bytes, length, get_elem?, take_all,
}
use sipster.Text.{c_str, strncpy_bounded}
use sipster.Sip.Enums.{return_ok, HeaderId}
use sipster.Sip.Parameter.{Parameter}
use sipster.Sip.Address.{zeroed, address_parse_in_place}
use sipster.Sip.Header.{Header}
use sipster.Sip.Chain.{Chain}
use sipster.Dialog.{
  Sipster, CallLeg, TaggedLegs, find_key, insert_leg, register_leg,
  call_leg_create_from_str_address, generate_random_string,
}
use sipster.Dialog.Lookup.{
  only_header, tag_of, text_of, address_of, find_leg, leg_by_tag, get_call_leg_for_request,
  request_with_call_id, request_with_to, decide_request, create_or_refuse, new_leg,
}
use sipster.Dialog.Lookup.Laws.{find_leg-insert_leg_new, get_elem?-length}
use sipster.Dialog.Reach.{get_elem?-last}

length-generate_random_string : (n : ℕ) (rs : List ℕ) → length (generate_random_string n rs).0 ≡ n
unfolding generate_random_string
length-generate_random_string zero rs = refl
length-generate_random_string (suc n) rs = omega (arith, length-generate_random_string n _)

-- A new leg, entered under this Call-ID and the tag that its field holds.
abbrev IsNew : Sipster → Bytes → ℕ → Sipster → Type 0
IsNew s call_id l s' =
    (made : CallLeg) × (l ≡ length s.store)
    × (s'.store ≡ s.store ++ made ∷ [])
    × (s'.legs ≡ insert_leg call_id made.to_tag l s.legs)

register_leg-IsNew :
    (s : Sipster) (call_id tag : Bytes) (made : CallLeg) {l : ℕ} {s' : Sipster}
    → register_leg s call_id (some tag) made ≡ ok (l, s')
    → made.to_tag ≡ tag
    → IsNew s call_id l s'
unfolding register_leg
register_leg-IsNew s call_id tag made {l} {s'} e same =
    let place : l ≡ length s.store = ground arith in
    let entered : s'.legs ≡ insert_leg call_id tag (length s.store) s.legs = ground arith in
    (made, place, ground arith, rw (place, same) entered)

new_leg-IsNew :
    (s : Sipster) (call_id from_address : Bytes) (from_tag : Option Parameter) (to_address : Bytes)
    {l : ℕ} {s' : Sipster}
    → new_leg s call_id from_address from_tag to_address ≡ ok (l, s')
    → IsNew s call_id l s'
unfolding new_leg call_leg_create_from_str_address strncpy_bounded
new_leg-IsNew s call_id from_address from_tag to_address {l} {s'} e =
    let (tag, there, e1) = bind-eq-ok (deref from_tag) _ e in
    let (a, parsed, e2) = bind-eq-ok (address_parse_in_place from_address zeroed) _ e1 in
    let (b, parsed', e3) = bind-eq-ok (address_parse_in_place to_address zeroed) _ e2 in
    let to_tag = (generate_random_string 13 s.randoms).0 in
    let whole : strncpy_bounded 15 to_tag ≡ to_tag =
      take_all 14 to_tag (omega (arith, length-generate_random_string 13 s.randoms)) in
    register_leg-IsNew _ call_id to_tag _ e3 whole

create_or_refuse-IsNew :
    (s : Sipster) (call_id : Bytes) (to_header : Header) (o : Option Header) {l : ℕ} {s' : Sipster}
    → create_or_refuse s true call_id to_header o ≡ ok (return_ok, some l, s')
    → IsNew s call_id l s'
unfolding create_or_refuse
create_or_refuse-IsNew s call_id to_header none e = absurd cc
create_or_refuse-IsNew s call_id to_header (some h) {l} {s'} e =
    let (from_address, one, e1) = bind-eq-ok (c_str 100 (address_of h.content)) _ e in
    let (to_address, two, e2) = bind-eq-ok (c_str 100 (address_of to_header.content)) _ e1 in
    let ((k, t), made, last) =
      bind-eq-ok (new_leg s call_id from_address (tag_of h) to_address) _ e2 in
    let place : k ≡ l = ground arith in
    let state : t ≡ s' = ground arith in
    rw (← place, ← state) (new_leg-IsNew s call_id from_address (tag_of h) to_address made)

find_leg-none : (call_id : Bytes) (cs : List (Bytes × TaggedLegs)) → find_leg call_id none cs ≡ none
unfolding find_leg leg_by_tag
find_leg-none call_id cs = go (find_key call_id cs)
  where
    go : (o : Option TaggedLegs) → leg_by_tag o none ≡ none
    go none = refl
    go (some legs) = refl

-- A request with one Call-ID and with one To, without a tag, that gets a leg, where it may create one, gets
-- a new one; and a later request with one Call-ID, the same, and with one To, whose tag is the one made for
-- that leg, gets the leg and leaves the state, whether it may create one or not, if no leg was under the
-- Call-ID and this tag before the first.
pub get_call_leg_for_request-created :
    (s s' : Sipster) (c again : Chain) (create : Bool) (h h' to_header to_header' : Header)
    (call_id : Bytes) (leg : ℕ) (made : CallLeg) (p : Parameter)
    → only_header HeaderId.call_id c ≡ some h
    → c_str 300 (text_of h.content) ≡ ok call_id
    → only_header HeaderId.to c ≡ some to_header
    → tag_of to_header ≡ none
    → get_call_leg_for_request s c true ≡ ok (return_ok, some leg, s')
    → get_elem? s'.store leg ≡ some made
    → find_leg call_id (some p) s.legs ≡ none
    → only_header HeaderId.call_id again ≡ some h'
    → c_str 300 (text_of h'.content) ≡ ok call_id
    → only_header HeaderId.to again ≡ some to_header'
    → tag_of to_header' ≡ some p
    → p.value ≡ made.to_tag
    → (get_elem? s.store leg ≡ none)
      × (get_call_leg_for_request s' again create ≡ ok (return_ok, some leg, s'))
unfolding get_call_leg_for_request request_with_call_id request_with_to decide_request
get_call_leg_for_request-created s s' c again create h h' to_header to_header' call_id leg made p
      one read two untagged e there free one' read' two' tagged same =
    let e' : create_or_refuse s true call_id to_header (only_header HeaderId.from c)
        ≡ ok (return_ok, some leg, s') =
      rw (one, read, two, untagged, find_leg-none call_id s.legs) at e in
    let (new, place, stored, entered) =
      create_or_refuse-IsNew s call_id to_header (only_header HeaderId.from c) e' in
    let last : get_elem? s'.store leg ≡ some new =
      rw (stored, place) (get_elem?-last s.store new) in
    let it : new ≡ made = cc in
    let tag : new.to_tag ≡ p.value = ap (λ (l : CallLeg). l.to_tag) it ∙ sym same in
    let found : find_leg call_id (some p) s'.legs ≡ some leg =
      rw (entered, tag) (find_leg-insert_leg_new call_id p leg s.legs free) in
    (rw place (get_elem?-length s.store), rw (one', read', two', tagged, found) refl)
