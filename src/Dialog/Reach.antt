-- ===== src/Dialog/Reach.antt =====
-- The states that the dialog layer reaches, and what its maps say of the legs in all of them.
pub mod Filed
use sipster.Base.{
  ℕ, zero, suc, Bool, List, [], ◌∷◌, ◌++◌, Option, some, ◌≡◌, ◌⊎◌, inl, inr, refl, sym, ◌∙◌, arith,
  ok, Bytes, equal, equal_iff, Bool-cases, length, get_elem?, set,
}
use sipster.Text.{strncpy_full}
use sipster.Sip.Enums.{ReturnCode}
use sipster.Sip.Address.{Address}
use sipster.Sip.Inet.{InetAddress}
use sipster.Sip.Parameter.{Parameter}
use sipster.Sip.Chain.{Chain}
use sipster.Dialog.{
  Sipster, CallLeg, Direction, TaggedLegs, CallIds, find_key, insert_tag, insert_leg,
  call_leg_create, call_leg_create_from_str_address,
}
use sipster.Dialog.Lookup.{find_leg, leg_by_tag, get_call_leg_for_request}
use sipster.Dialog.Runtime.{Runtime, take_tag}

-- Each operation of the dialog layer that writes the maps or the legs: the two creations, the lookup of
-- a request, and the tag that a response brings.
pub data Step : Sipster → Sipster → Type 0 where
  created :
      {s s' : Sipster} (d : Direction) (call_id : Bytes) (from : Address) (from_tag : Option Bytes)
      (to : Address) (to_tag : Option Bytes) (local peer : InetAddress)
      (on_request on_response : Option ℕ) {l : ℕ}
      → call_leg_create s d call_id from from_tag to to_tag local peer on_request on_response
        ≡ ok (l, s')
      → Step s s'
  named :
      {s s' : Sipster} (d : Direction) (call_id from : Bytes) (from_tag : Option Bytes) (to : Bytes)
      (to_tag : Option Bytes) (local : InetAddress) (on_request on_response : Option ℕ) {l : ℕ}
      → call_leg_create_from_str_address s d call_id from from_tag to to_tag local on_request
          on_response
        ≡ ok (l, s')
      → Step s s'
  looked_up :
      {s s' : Sipster} (c : Chain) (create : Bool) {code : ReturnCode} {leg : Option ℕ}
      → get_call_leg_for_request s c create ≡ ok (code, leg, s')
      → Step s s'
  tagged :
      (w w' : Runtime) (leg : Option ℕ) (tag : Option Parameter)
      → take_tag w leg tag ≡ ok w'
      → Step w.sipster w'.sipster

-- From a state without legs, by any number of steps.
pub data Reachable : Sipster → Type 0 where
  start : (s : Sipster) → s.legs ≡ [] → Reachable s
  next : {s s' : Sipster} → Reachable s → Step s s' → Reachable s'

-- A leg that is found under a Call-ID is in the store, and was made with this Call-ID.
abbrev pub IsFiled : Sipster → Type 0
IsFiled s =
    (c : Bytes) (p : Parameter) (l : ℕ)
    → find_leg c (some p) s.legs ≡ some l
    → (leg : CallLeg) × (get_elem? s.store l ≡ some leg) × (leg.call_id ≡ strncpy_full 150 c)

module _ {ℓ} {A : Type ℓ} where
  pub get_elem?-append :
      (xs ys : List A) (i : ℕ) (a : A) → get_elem? xs i ≡ some a → get_elem? (xs ++ ys) i ≡ some a
  get_elem?-append [] ys i a e = cc
  get_elem?-append (x ∷ xs) ys zero a e = e
  get_elem?-append (x ∷ xs) ys (suc i) a e = get_elem?-append xs ys i a e

  pub get_elem?-last : (xs : List A) (a : A) → get_elem? (xs ++ a ∷ []) (length xs) ≡ some a
  get_elem?-last [] a = refl
  get_elem?-last (x ∷ xs) a = get_elem?-last xs a

  -- A write at a place that is there keeps the other places.
  pub get_elem?-set :
      (xs : List A) (i j : ℕ) (v a : A)
      → get_elem? xs j ≡ some a
      → (get_elem? (set xs i v) j ≡ some a) ⊎ ((i ≡ j) × (get_elem? (set xs i v) j ≡ some v))
  get_elem?-set [] i j v a e = cc
  get_elem?-set (x ∷ xs) zero zero v a e = inr (refl, refl)
  get_elem?-set (x ∷ xs) zero (suc j) v a e = inl e
  get_elem?-set (x ∷ xs) (suc i) zero v a e = inl e
  get_elem?-set (x ∷ xs) (suc i) (suc j) v a e = elim (get_elem?-set xs i j v a e) [
    | inl kept ↦ inl kept
    | inr put ↦ inr (omega (arith, put.0), put.1)
  ]

find_key-insert_tag_cases :
    (tag t : Bytes) (place l : ℕ) (ts : TaggedLegs)
    → find_key t (insert_tag tag place ts) ≡ some l
    → (find_key t ts ≡ some l) ⊎ (l ≡ place)
unfolding find_key insert_tag
find_key-insert_tag_cases tag t place l [] e = ground arith
find_key-insert_tag_cases tag t place l ((u, k) ∷ ts) e =
    ground (arith, find_key-insert_tag_cases tag t place l ts)

-- What is found after an insertion was found before, or is new and under the Call-ID inserted.
pub find_leg-insert_leg_cases :
    (call_id c tag : Bytes) (p : Parameter) (place l : ℕ) (cs : CallIds)
    → find_leg c (some p) (insert_leg call_id tag place cs) ≡ some l
    → (find_leg c (some p) cs ≡ some l) ⊎ ((l ≡ place) × (c ≡ call_id))
unfolding find_leg leg_by_tag find_key insert_leg
find_leg-insert_leg_cases call_id c tag p place l [] e = elim (Bool-cases (equal call_id c)) [
  | inl same ↦
      let there : find_key p.value (insert_tag tag place []) ≡ some l = rw same at e in
      inr (
        new_only (find_key-insert_tag_cases tag p.value place l [] there),
        sym ((equal_iff call_id c).0 same),
      )
  | inr other ↦ absurd (cc (rw other at e))
]
  where
    new_only : (find_key p.value [] ≡ some l) ⊎ (l ≡ place) → l ≡ place
    new_only (inl e) = cc
    new_only (inr e) = e
find_leg-insert_leg_cases call_id c tag p place l ((d, ts) ∷ cs) e =
    elim (Bool-cases (equal d call_id)) [
      | inl entered ↦ elim (Bool-cases (equal d c)) [
        | inl here ↦
            let found : find_key p.value (insert_tag tag place ts) ≡ some l =
              rw (entered, here) at e in
            rw here (elim (find_key-insert_tag_cases tag p.value place l ts found) [
              | inl before ↦ inl before
              | inr new ↦ inr (new, sym ((equal_iff d c).0 here) ∙ (equal_iff d call_id).0 entered)
            ])
        | inr elsewhere ↦ rw elsewhere (inl (rw (entered, elsewhere) at e))
      ]
      | inr passed ↦ elim (Bool-cases (equal d c)) [
        | inl here ↦ rw here (inl (rw (passed, here) at e))
        | inr elsewhere ↦
            rw elsewhere
              (find_leg-insert_leg_cases call_id c tag p place l cs (rw (passed, elsewhere) at e))
      ]
    ]
