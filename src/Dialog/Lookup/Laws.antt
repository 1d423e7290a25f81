-- ===== src/Dialog/Lookup/Laws.antt =====
-- What the maps of call legs keep, and what a lookup for a request or a response does to them.
use sipster.Base.{
  ◌≢◌, true, ◌⊎◌, ℕ, Bool, false, List, [], ◌∷◌, Option, none, some, ◌≡◌, refl, arith, ok, deref,
  bind-eq-ok, Bytes, equal, equal_refl, Bool-cases, inl, inr, length, get_elem?,
}
use sipster.Text.{c_str}
use sipster.Sip.Enums.{ReturnCode, return_ok, call_not_found, message_error, HeaderId}
use sipster.Sip.Parameter.{Parameter}
use sipster.Sip.Address.{Address}
use sipster.Sip.Inet.{InetAddress}
use sipster.Sip.Header.{Header}
use sipster.Sip.Chain.{Chain}
use sipster.Dialog.{
  Sipster, Direction, TaggedLegs, CallIds, find_key, insert_tag, insert_leg, register_leg, key_tag,
  call_leg_create,
}
use sipster.Dialog.Lookup.{
  only_header, tag_of, text_of, find_leg, leg_by_tag, get_call_leg_for_request,
  get_call_leg_for_response, request_with_call_id, request_with_to, decide_request,
  create_or_refuse, new_leg, address_of, response_with_call_id, response_with_from, decide_response,
}

find_key-insert_tag_kept :
    (tag t : Bytes) (leg l : ℕ) (ts : TaggedLegs)
    → find_key t ts ≡ some l
    → find_key t (insert_tag tag leg ts) ≡ some l
unfolding find_key insert_tag
find_key-insert_tag_kept tag t leg l [] e = cc
find_key-insert_tag_kept tag t leg l ((u, k) ∷ ts) e =
    ground (arith, find_key-insert_tag_kept tag t leg l ts)

find_key-insert_tag_new :
    (tag : Bytes) (leg : ℕ) (ts : TaggedLegs)
    → find_key tag ts ≡ none
    → find_key tag (insert_tag tag leg ts) ≡ some leg
unfolding find_key insert_tag
find_key-insert_tag_new tag leg [] e = rw (equal_refl tag) refl
find_key-insert_tag_new tag leg ((u, k) ∷ ts) e = elim (Bool-cases (equal u tag)) [
  | inl same ↦ absurd (cc (rw same at e))
  | inr other ↦ rw (other, other) (find_key-insert_tag_new tag leg ts (rw other at e))
]

find_leg-insert_leg_kept :
    (call_id c tag : Bytes) (p : Parameter) (leg l : ℕ) (cs : CallIds)
    → find_leg c (some p) cs ≡ some l
    → find_leg c (some p) (insert_leg call_id tag leg cs) ≡ some l
unfolding find_leg leg_by_tag find_key insert_leg
find_leg-insert_leg_kept call_id c tag p leg l [] e = cc
find_leg-insert_leg_kept call_id c tag p leg l ((d, ts) ∷ cs) e = ground (
  arith,
  find_leg-insert_leg_kept call_id c tag p leg l cs,
  find_key-insert_tag_kept tag p.value leg l ts,
)

pub find_leg-insert_leg_new :
    (call_id : Bytes) (p : Parameter) (leg : ℕ) (cs : CallIds)
    → find_leg call_id (some p) cs ≡ none
    → find_leg call_id (some p) (insert_leg call_id p.value leg cs) ≡ some leg
unfolding find_leg leg_by_tag find_key insert_leg
find_leg-insert_leg_new call_id p leg [] e =
    rw (equal_refl call_id) (find_key-insert_tag_new p.value leg [] refl)
find_leg-insert_leg_new call_id p leg ((d, ts) ∷ cs) e = elim (Bool-cases (equal d call_id)) [
  | inl same ↦ rw (same, same) (find_key-insert_tag_new p.value leg ts (rw same at e))
  | inr other ↦ rw (other, other) (find_leg-insert_leg_new call_id p leg cs (rw other at e))
]

pub get_elem?-length {ℓ} : {A : Type ℓ} (xs : List A) → get_elem? xs (length xs) ≡ none
get_elem?-length [] = refl
get_elem?-length (x ∷ xs) = get_elem?-length xs

-- Creating a leg never takes a leg out of the maps: what was found under a Call-ID and a tag is found
-- there afterwards, also if it is the Call-ID and the tag of the new leg.
pub find_leg-call_leg_create_kept :
    (s : Sipster) (d : Direction) (call_id : Bytes) (from : Address) (from_tag : Option Bytes)
    (to : Address) (to_tag : Option Bytes) (local peer : InetAddress)
    (on_request on_response : Option ℕ) (c : Bytes) (p : Parameter) (l : ℕ) {leg : ℕ} {s' : Sipster}
    → call_leg_create s d call_id from from_tag to to_tag local peer on_request on_response
      ≡ ok (leg, s')
    → find_leg c (some p) s.legs ≡ some l
    → find_leg c (some p) s'.legs ≡ some l
unfolding call_leg_create register_leg
find_leg-call_leg_create_kept s d call_id from from_tag to to_tag local peer on_request on_response
      c p l {s' = s'} e there =
    let (tag, key, made) = bind-eq-ok (deref (key_tag d from_tag to_tag)) _ e in
    let entered : s'.legs ≡ insert_leg call_id tag (length s.store) s.legs = ground arith in
    rw entered (find_leg-insert_leg_kept call_id c tag p (length s.store) l s.legs there)

-- A Call-ID and a key tag under which there is no leg have the new leg after its creation, at a place
-- of the store that was free.
pub find_leg-call_leg_create_new :
    (s : Sipster) (d : Direction) (call_id : Bytes) (from : Address) (from_tag : Option Bytes)
    (to : Address) (to_tag : Option Bytes) (local peer : InetAddress)
    (on_request on_response : Option ℕ) (p : Parameter) {leg : ℕ} {s' : Sipster}
    → key_tag d from_tag to_tag ≡ some p.value
    → find_leg call_id (some p) s.legs ≡ none
    → call_leg_create s d call_id from from_tag to to_tag local peer on_request on_response
      ≡ ok (leg, s')
    → (find_leg call_id (some p) s'.legs ≡ some leg) × (get_elem? s.store leg ≡ none)
unfolding call_leg_create register_leg
find_leg-call_leg_create_new s d call_id from from_tag to to_tag local peer on_request on_response p
      {leg = leg} {s' = s'} key free e =
    let made = rw key at e in
    let place : leg ≡ length s.store = ground arith in
    let entered : s'.legs ≡ insert_leg call_id p.value (length s.store) s.legs = ground arith in
    (
      rw (entered, place) (find_leg-insert_leg_new call_id p (length s.store) s.legs free),
      rw place (get_elem?-length s.store),
    )

-- What a lookup that creates no leg may give: a leg with `return_ok`, or an error without one; and
-- the state as it was.
abbrev pub IsLookup : Sipster → ReturnCode × Option ℕ × Sipster → Type 0
IsLookup s (res, leg, s') =
    (s' ≡ s)
    × (((l : ℕ) × (leg ≡ some l) × (res ≡ return_ok))
        ⊎ ((leg ≡ none) × ((res ≡ call_not_found) ⊎ (res ≡ message_error))))

decide_request-IsLookup :
    (s : Sipster) (call_id : Bytes) (h : Header) (c : Chain) (tag : Option Parameter)
    (leg : Option ℕ) {r : ReturnCode × Option ℕ × Sipster}
    → decide_request s false call_id h c tag leg ≡ ok r
    → IsLookup s r
unfolding decide_request create_or_refuse
decide_request-IsLookup s call_id h c tag (some leg) e = ground arith
decide_request-IsLookup s call_id h c (some tag) none e = ground arith
decide_request-IsLookup s call_id h c none none e = ground arith

request_with_to-IsLookup :
    (s : Sipster) (call_id : Bytes) (c : Chain) (o : Option Header)
    {r : ReturnCode × Option ℕ × Sipster}
    → request_with_to s false call_id c o ≡ ok r
    → IsLookup s r
unfolding request_with_to
request_with_to-IsLookup s call_id c none e = ground arith
request_with_to-IsLookup s call_id c (some h) e = decide_request-IsLookup s call_id h c _ _ e

-- A lookup for a request that may not create a leg leaves the state as it is, and it is OK exactly
-- if it gives a leg; without one, it is an error.
pub get_call_leg_for_request-IsLookup :
    (s : Sipster) (c : Chain) {r : ReturnCode × Option ℕ × Sipster}
    → get_call_leg_for_request s c false ≡ ok r
    → IsLookup s r
unfolding get_call_leg_for_request request_with_call_id
get_call_leg_for_request-IsLookup s c e = go (only_header HeaderId.call_id c) e
  where
    go :
        (o : Option Header) {r : ReturnCode × Option ℕ × Sipster}
        → request_with_call_id s false c o ≡ ok r
        → IsLookup s r
    go none e = ground arith
    go (some h) e =
        let (call_id, read, rest) = bind-eq-ok (c_str 300 (text_of h.content)) _ e in
        request_with_to-IsLookup s call_id c _ rest

create_or_refuse_refused :
    (s : Sipster) (create : Bool) (call_id : Bytes) (to_header : Header) (o : Option Header)
    {code : ReturnCode} {leg : Option ℕ} {s' : Sipster}
    → create_or_refuse s create call_id to_header o ≡ ok (code, leg, s')
    → code ≢ return_ok
    → s' ≡ s
unfolding create_or_refuse
create_or_refuse_refused s false call_id to_header o e other = ground arith
create_or_refuse_refused s true call_id to_header none e other = ground arith
create_or_refuse_refused s true call_id to_header (some h) {code} e other =
    let (from_address, one, e1) = bind-eq-ok (c_str 100 (address_of h.content)) _ e in
    let (to_address, two, e2) = bind-eq-ok (c_str 100 (address_of to_header.content)) _ e1 in
    let ((l, t), made, last) =
      bind-eq-ok (new_leg s call_id from_address (tag_of h) to_address) _ e2 in
    let fine : code ≡ return_ok = cc in absurd (other fine)

decide_request_refused :
    (s : Sipster) (create : Bool) (call_id : Bytes) (h : Header) (c : Chain)
    (tag : Option Parameter) (found : Option ℕ) {code : ReturnCode} {leg : Option ℕ} {s' : Sipster}
    → decide_request s create call_id h c tag found ≡ ok (code, leg, s')
    → code ≢ return_ok
    → s' ≡ s
unfolding decide_request
decide_request_refused s create call_id h c tag (some l) e other = ground arith
decide_request_refused s create call_id h c (some tag) none e other = ground arith
decide_request_refused s create call_id h c none none e other =
    create_or_refuse_refused s create call_id h _ e other

-- A lookup for a request that does not give OK leaves the state as it was, whether it may create a leg
-- or not.
pub get_call_leg_for_request_refused :
    (s : Sipster) (c : Chain) (create : Bool) {code : ReturnCode} {leg : Option ℕ} {s' : Sipster}
    → get_call_leg_for_request s c create ≡ ok (code, leg, s')
    → code ≢ return_ok
    → s' ≡ s
unfolding get_call_leg_for_request request_with_call_id request_with_to
get_call_leg_for_request_refused s c create {code} {leg} {s'} e other =
    by_call_id (only_header HeaderId.call_id c) e
  where
    by_to :
        (call_id : Bytes) (o : Option Header)
        → request_with_to s create call_id c o ≡ ok (code, leg, s')
        → s' ≡ s
    by_to call_id none e = ground arith
    by_to call_id (some h) e = decide_request_refused s create call_id h c _ _ e other

    by_call_id :
        (o : Option Header) → request_with_call_id s create c o ≡ ok (code, leg, s') → s' ≡ s
    by_call_id none e = ground arith
    by_call_id (some h) e =
        let (call_id, read, rest) = bind-eq-ok (c_str 300 (text_of h.content)) _ e in
        by_to call_id _ rest

-- A response with one Call-ID and one From gets the leg that the maps hold under the Call-ID and the
-- From tag.
pub get_call_leg_for_response_known :
    (s : Sipster) (c : Chain) (h from_header : Header) (call_id : Bytes) (leg : ℕ)
    → only_header HeaderId.call_id c ≡ some h
    → c_str 300 (text_of h.content) ≡ ok call_id
    → only_header HeaderId.from c ≡ some from_header
    → find_leg call_id (tag_of from_header) s.legs ≡ some leg
    → get_call_leg_for_response s c ≡ ok (return_ok, some leg)
unfolding get_call_leg_for_response response_with_call_id response_with_from decide_response
get_call_leg_for_response_known s c h from_header call_id leg one read other found =
    rw (one, read, other, found) refl
