-- ===== src/Dialog/Reach/Filed.antt =====
-- The maps of legs against their store, in the states that the dialog layer reaches.
use sipster.Base.{
  ℕ, Bool, [], ◌∷◌, ◌++◌, Option, none, some, ◌≡◌, inl, inr, refl, ap, ◌∙◌, arith, ok, bind-eq-ok,
  Bytes, true, false, Bool-cases, length, get_elem?, set, deref, element, contains,
}
use sipster.Text.{strncpy_full, c_str}
use sipster.Sip.Enums.{ReturnCode, HeaderId}
use sipster.Sip.Address.{zeroed, address_parse_in_place}
use sipster.Sip.Inet.{InetAddress}
use sipster.Sip.Parameter.{Parameter}
use sipster.Sip.Header.{Header}
use sipster.Sip.Chain.{Chain}
use sipster.Dialog.{
  Sipster, CallLeg, Direction, find_key, insert_leg, register_leg, key_tag, call_leg_create,
  call_leg_create_from_str_address,
}
use sipster.Dialog.Lookup.{
  tag_of, text_of, request_with_to, address_of, decide_request, request_with_call_id,
  create_or_refuse, new_leg, only_header, find_leg, leg_by_tag, get_call_leg_for_request,
}
use sipster.Dialog.Runtime.{Runtime, read_leg, take_tag}
use sipster.Dialog.Reach.{
  Step, created, named, looked_up, tagged, Reachable, start, next, IsFiled, get_elem?-append,
  get_elem?-last, get_elem?-set, find_leg-insert_leg_cases,
}

register_leg-IsFiled :
    (s : Sipster) (call_id : Bytes) (key : Option Bytes) (leg : CallLeg) {l : ℕ} {s' : Sipster}
    → leg.call_id ≡ strncpy_full 150 call_id
    → IsFiled s
    → register_leg s call_id key leg ≡ ok (l, s')
    → IsFiled s'
unfolding register_leg
register_leg-IsFiled s call_id key leg {l} {s'} titled filed e c p m found =
    let (tag, there, made) = bind-eq-ok (deref key) _ e in
    let entered : s'.legs ≡ insert_leg call_id tag (length s.store) s.legs = ground arith in
    let stored : s'.store ≡ s.store ++ leg ∷ [] = ground arith in
    rw stored
      (elim (find_leg-insert_leg_cases call_id c tag p (length s.store) m s.legs
        (rw entered at found)) [
          | inl before ↦
              let (old, place, same) = filed c p m before in
              (old, get_elem?-append s.store (leg ∷ []) m old place, same)
          | inr (new, same) ↦ rw (new, same) (leg, get_elem?-last s.store leg, titled)
        ])

call_leg_create_from_str_address-IsFiled :
    (s : Sipster) (d : Direction) (call_id from : Bytes) (from_tag : Option Bytes) (to : Bytes)
    (to_tag : Option Bytes) (local : InetAddress) (on_request on_response : Option ℕ) {l : ℕ}
    {s' : Sipster}
    → IsFiled s
    → call_leg_create_from_str_address s d call_id from from_tag to to_tag local on_request
        on_response
      ≡ ok (l, s')
    → IsFiled s'
unfolding call_leg_create_from_str_address
call_leg_create_from_str_address-IsFiled s d call_id from from_tag to to_tag local on_request
      on_response filed e =
    let (a, parsed, rest) = bind-eq-ok (address_parse_in_place from zeroed) _ e in
    let (b, parsed', made) = bind-eq-ok (address_parse_in_place to zeroed) _ rest in
    register_leg-IsFiled s call_id (key_tag d from_tag to_tag) _ refl filed made

new_leg-IsFiled :
    (s : Sipster) (call_id from_address : Bytes) (from_tag : Option Parameter) (to_address : Bytes)
    {l : ℕ} {s' : Sipster}
    → IsFiled s
    → new_leg s call_id from_address from_tag to_address ≡ ok (l, s')
    → IsFiled s'
unfolding new_leg
new_leg-IsFiled s call_id from_address from_tag to_address filed e =
    let (tag, there, made) = bind-eq-ok (deref from_tag) _ e in
    call_leg_create_from_str_address-IsFiled _ _ _ _ _ _ _ _ _ _ filed made

create_or_refuse-IsFiled :
    (s : Sipster) (create : Bool) (call_id : Bytes) (h : Header) (o : Option Header)
    {code : ReturnCode} {leg : Option ℕ} {s' : Sipster}
    → IsFiled s
    → create_or_refuse s create call_id h o ≡ ok (code, leg, s')
    → IsFiled s'
unfolding create_or_refuse
create_or_refuse-IsFiled s false call_id h o {s' = s'} filed e =
    let same : s ≡ s' = cc in rw (← same) filed
create_or_refuse-IsFiled s true call_id h none {s' = s'} filed e =
    let same : s ≡ s' = cc in rw (← same) filed
create_or_refuse-IsFiled s true call_id h (some f) {s' = s'} filed e =
    let (from, read, rest) = bind-eq-ok (c_str 100 (address_of f.content)) _ e in
    let (to, read', rest') = bind-eq-ok (c_str 100 (address_of h.content)) _ rest in
    let ((l, t), made, last) = bind-eq-ok (new_leg s call_id from (tag_of f) to) _ rest' in
    let same : t ≡ s' = cc in rw (← same) (new_leg-IsFiled s call_id from (tag_of f) to filed made)

decide_request-IsFiled :
    (s : Sipster) (create : Bool) (call_id : Bytes) (h : Header) (c : Chain)
    (tag : Option Parameter) (found : Option ℕ) {code : ReturnCode} {leg : Option ℕ} {s' : Sipster}
    → IsFiled s
    → decide_request s create call_id h c tag found ≡ ok (code, leg, s')
    → IsFiled s'
unfolding decide_request
decide_request-IsFiled s create call_id h c tag (some l) {s' = s'} filed e =
    let same : s ≡ s' = cc in rw (← same) filed
decide_request-IsFiled s create call_id h c (some tag) none {s' = s'} filed e =
    let same : s ≡ s' = cc in rw (← same) filed
decide_request-IsFiled s create call_id h c none none filed e =
    create_or_refuse-IsFiled s create call_id h _ filed e

get_call_leg_for_request-IsFiled :
    (s : Sipster) (c : Chain) (create : Bool) {code : ReturnCode} {leg : Option ℕ} {s' : Sipster}
    → IsFiled s
    → get_call_leg_for_request s c create ≡ ok (code, leg, s')
    → IsFiled s'
unfolding get_call_leg_for_request request_with_call_id request_with_to
get_call_leg_for_request-IsFiled s c create {code} {leg} {s'} filed e =
    go (only_header HeaderId.call_id c) e
  where
    with_to :
        (call_id : Bytes) (o : Option Header)
        → request_with_to s create call_id c o ≡ ok (code, leg, s')
        → IsFiled s'
    with_to call_id none e = let same : s ≡ s' = cc in rw (← same) filed
    with_to call_id (some h) e = decide_request-IsFiled s create call_id h c _ _ filed e

    go : (o : Option Header) → request_with_call_id s create c o ≡ ok (code, leg, s') → IsFiled s'
    go none e = let same : s ≡ s' = cc in rw (← same) filed
    go (some h) e =
        let (call_id, read, rest) = bind-eq-ok (c_str 300 (text_of h.content)) _ e in
        with_to call_id (only_header HeaderId.to c) rest

read_leg-get_elem? :
    (w : Runtime) (l : ℕ) (leg : CallLeg)
    → read_leg w l ≡ ok leg
    → get_elem? w.sipster.store l ≡ some leg
unfolding read_leg
read_leg-get_elem? w l leg e = elim (Bool-cases (contains w.freed l)) [
  | inl gone ↦ absurd (cc (rw gone at e))
  | inr there ↦ held (get_elem? w.sipster.store l) (rw there at e)
]
  where
    held : (o : Option CallLeg) → element o ≡ ok leg → o ≡ some leg
    held none e = cc
    held (some k) e = cc

take_tag-IsFiled :
    (w w' : Runtime) (leg : Option ℕ) (tag : Option Parameter)
    → IsFiled w.sipster
    → take_tag w leg tag ≡ ok w'
    → IsFiled w'.sipster
unfolding take_tag
take_tag-IsFiled w w' leg none filed e = let same : w ≡ w' = cc in rw (← same) filed
take_tag-IsFiled w w' none (some tag) filed e = absurd cc
take_tag-IsFiled w w' (some l) (some tag) filed e =
    let (there, read, last) = bind-eq-ok (read_leg w l) _ e in
    let k : CallLeg = record there { to_tag = strncpy_full 15 tag.value } in
    let legs : w'.sipster.legs ≡ w.sipster.legs = cc in
    let stored : w'.sipster.store ≡ set w.sipster.store l k = cc in
    λ c p m found.
      let (old, place, same) = filed c p m (rw legs at found) in
      rw stored (elim (get_elem?-set w.sipster.store l m k old place) [
        | inl kept ↦ (old, kept, same)
        | inr (here, put) ↦
            let first = read_leg-get_elem? w l there read in
            let as_old : there ≡ old = cc in (k, put, ap (λ (o : CallLeg). o.call_id) as_old ∙ same)
      ])

Step-IsFiled : {s s' : Sipster} → Step s s' → IsFiled s → IsFiled s'
unfolding call_leg_create
Step-IsFiled (created {s} d call_id from from_tag to to_tag local peer on_request on_response e)
      filed =
    register_leg-IsFiled s call_id (key_tag d from_tag to_tag) _ refl filed e
Step-IsFiled (named {s} d call_id from from_tag to to_tag local on_request on_response e) filed =
    call_leg_create_from_str_address-IsFiled s d call_id from from_tag to to_tag local on_request
      on_response filed e
Step-IsFiled (looked_up {s} c create e) filed = get_call_leg_for_request-IsFiled s c create filed e
Step-IsFiled (tagged w w' leg tag e) filed = take_tag-IsFiled w w' leg tag filed e

-- In every state that the dialog layer reaches from one without legs, by creations of legs, lookups of
-- requests that may create legs, and tags that responses bring: a leg that is found under a Call-ID and a
-- tag is in the store, and is a leg of this Call-ID, as far as its 150 bytes hold it.
pub Reachable-IsFiled :
    (s : Sipster) (c : Bytes) (p : Parameter) (l : ℕ)
    → Reachable s
    → find_leg c (some p) s.legs ≡ some l
    → (leg : CallLeg) × (get_elem? s.store l ≡ some leg) × (leg.call_id ≡ strncpy_full 150 c)
unfolding find_leg leg_by_tag find_key
Reachable-IsFiled s c p l r found = go r c p l found
  where
    nothing : (c : Bytes) (p : Parameter) (l : ℕ) → find_leg c (some p) [] ≡ some l → ⊥
    nothing c p l e = cc

    go : {s : Sipster} → Reachable s → IsFiled s
    go (start s empty) = λ c p l e. absurd (nothing c p l (rw empty at e))
    go (next r step) = Step-IsFiled step (go r)
