-- ===== src/Dialog/Table.antt =====
-- The maps of call legs as one abstract table, and the creation of a leg as an entry into it.
use sipster.Base.{
  ◌∙◌, sym, ap, Bool, ℕ, ◌&&◌, [], ◌∷◌, ◌++◌, Option, none, some, ◌≡◌, refl, ok, Bytes, equal,
  length, if◌then◌else◌, Bool-cases, inl, inr, true, false, equal_iff, codes,
}
use sipster.Sip.Address.{Address}
use sipster.Sip.Inet.{InetAddress}
use sipster.Sip.Parameter.{Parameter}
use sipster.Dialog.{
  Sipster, CallLeg, Direction, TaggedLegs, CallIds, find_key, insert_tag, insert_leg, register_leg,
  key_tag, call_leg_create,
}
use sipster.Dialog.Lookup.{find_leg, leg_by_tag}

-- What the dialog layer promises: at most one leg for each Call-ID and tag.
abbrev pub Table : Type 0
Table = Bytes → Bytes → Option ℕ

-- What is there stays; what is not there is new, where it is meant.
abbrev or_new : ℕ → Bool → Option ℕ → Option ℕ
or_new leg here (some l) = some l
or_new leg here none = if here then some leg else none

-- A new leg goes under its Call-ID and tag, unless a leg is there.
abbrev pub enter : Bytes → Bytes → ℕ → Table → Table
enter call_id tag leg table c t = or_new leg (equal call_id c && equal tag t) (table c t)

abbrev pub tag_named : Bytes → Parameter
tag_named t = record { name = codes "tag"; value = t }

-- The table that the maps stand for.
abbrev pub table_of : CallIds → Table
table_of legs c t = find_leg c (some (tag_named t)) legs

or_new_elsewhere : (leg : ℕ) (here : Bool) (o : Option ℕ) → here ≡ false → or_new leg here o ≡ o
or_new_elsewhere leg here none e = rw e refl
or_new_elsewhere leg here (some l) e = refl

equal_moved : (a b c : Bytes) → equal a b ≡ true → equal a c ≡ equal b c
equal_moved a b c e = ap (λ x. equal x c) ((equal_iff a b).0 e)

find_key-insert_tag :
    (tag t : Bytes) (leg : ℕ) (ts : TaggedLegs)
    → find_key t (insert_tag tag leg ts) ≡ or_new leg (equal tag t) (find_key t ts)
unfolding find_key insert_tag
find_key-insert_tag tag t leg [] = refl
find_key-insert_tag tag t leg ((u, k) ∷ ts) = elim (Bool-cases (equal u t)) [
  | inl here ↦ elim (Bool-cases (equal u tag)) [
    | inl entered ↦ rw (entered, here) refl
    | inr passed ↦ rw (passed, here) refl
  ]
  | inr elsewhere ↦ elim (Bool-cases (equal u tag)) [
    | inl entered ↦
        let apart : equal tag t ≡ false = sym (equal_moved u tag t entered) ∙ elsewhere in
        rw (entered, elsewhere) (sym (or_new_elsewhere leg _ (find_key t ts) apart))
    | inr passed ↦ rw (passed, elsewhere) (find_key-insert_tag tag t leg ts)
  ]
]

-- The insertion into the maps is the entry into their table.
find_leg-insert_leg :
    (call_id tag : Bytes) (leg : ℕ) (cs : CallIds) (c t : Bytes)
    → table_of (insert_leg call_id tag leg cs) c t ≡ enter call_id tag leg (table_of cs) c t
unfolding find_leg leg_by_tag find_key insert_leg
find_leg-insert_leg call_id tag leg [] c t = elim (Bool-cases (equal call_id c)) [
  | inl here ↦ rw here (find_key-insert_tag tag t leg [])
  | inr elsewhere ↦ rw elsewhere refl
]
find_leg-insert_leg call_id tag leg ((d, ts) ∷ cs) c t = elim (Bool-cases (equal d c)) [
  | inl here ↦ elim (Bool-cases (equal d call_id)) [
    | inl entered ↦
        let same : equal call_id c ≡ true = sym (equal_moved d call_id c entered) ∙ here in
        rw (entered, here, same) (find_key-insert_tag tag t leg ts)
    | inr passed ↦
        let apart : equal call_id c ≡ false = elim (Bool-cases (equal call_id c)) [
          | inl same ↦
              let met : equal d call_id ≡ true =
                (equal_iff d call_id).1
                  ((equal_iff d c).0 here ∙ sym ((equal_iff call_id c).0 same)) in
              absurd cc
          | inr other ↦ other
        ] in
        rw (passed, here, apart) (sym (or_new_elsewhere leg false (find_key t ts) refl))
  ]
  | inr elsewhere ↦ elim (Bool-cases (equal d call_id)) [
    | inl entered ↦
        let apart : equal call_id c ≡ false = sym (equal_moved d call_id c entered) ∙ elsewhere in
        rw (entered, elsewhere, apart) (sym (or_new_elsewhere leg false _ refl))
    | inr passed ↦ rw (passed, elsewhere) (find_leg-insert_leg call_id tag leg cs c t)
  ]
]

-- A state that holds the leg at the next place, and a table with the entry.
abbrev pub IsEntered : Sipster → Bytes → Bytes → Sipster → Type 0
IsEntered s call_id tag s' =
    (c t : Bytes) → table_of s'.legs c t ≡ enter call_id tag (length s.store) (table_of s.legs) c t

register_leg-IsEntered :
    (s : Sipster) (call_id tag : Bytes) (leg : CallLeg)
    → (s' : Sipster) × (register_leg s call_id (some tag) leg ≡ ok (length s.store, s'))
      × IsEntered s call_id tag s'
unfolding register_leg
register_leg-IsEntered s call_id tag leg =
    let s' : Sipster = record s {
      store = s.store ++ leg ∷ [];
      legs = insert_leg call_id tag (length s.store) s.legs;
    } in
    (s', refl, find_leg-insert_leg call_id tag (length s.store) s.legs)

-- The creation of a leg is an entry into the abstract table that the maps stand for. If the tag that is
-- to be its key is not NULL, a leg is created at the next place of the store, and the table has this
-- place under the Call-ID and the key tag if there was no leg, and under all else what it had.
pub call_leg_create-IsEntered :
    (s : Sipster) (d : Direction) (call_id : Bytes) (from : Address) (from_tag : Option Bytes)
    (to : Address) (to_tag : Option Bytes) (local peer : InetAddress)
    (on_request on_response : Option ℕ) (tag : Bytes)
    → key_tag d from_tag to_tag ≡ some tag
    → (s' : Sipster) × (call_leg_create s d call_id from from_tag to to_tag local peer on_request
          on_response
        ≡ ok (length s.store, s'))
      × IsEntered s call_id tag s'
unfolding call_leg_create
call_leg_create-IsEntered s d call_id from from_tag to to_tag local peer on_request on_response tag
      e =
    rw e (register_leg-IsEntered s call_id tag _)
