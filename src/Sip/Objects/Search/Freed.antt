-- ===== src/Sip/Objects/Search/Freed.antt =====
-- A search in memory whose result is freed.
use sipster.Base.{
  ℕ, ◌≤◌, true, false, List, [], ◌∷◌, Option, none, some, ◌≡◌, refl, arith, ok, contains, All, ◌==◌,
  Bool-cases, inl, inr, length,
}
use sipster.Memory.{Heap}
use sipster.Memory.Freeing.{IsLive, IsHeap, Without}
use sipster.Sip.Enums.{HeaderId}
use sipster.Sip.Header.{Header}
use sipster.Sip.Chain.{Chain, collect}
use sipster.Sip.Objects.{Cell, leaf_cell, metadata_cell, append_destroy, leaves_destroy}
use sipster.Sip.Objects.Leaves.{Leaves, append_destroy-Without}
use sipster.Sip.Objects.Lists.{Represents}
use sipster.Sip.Objects.Search.{search, head_of}
use sipster.Sip.Objects.Search.Found.{Copies, nil, cons, IsFound, first-copy}
use sipster.Sip.Objects.Search.Loop.{search-IsFound}

Copies-Leaves :
    {h g : Heap Cell} {metadata : ℕ} {o : Option ℕ} {qs : List ℕ} {rs : List (Option Header)}
    → Copies h g metadata o qs rs
    → Leaves g false o qs
Copies-Leaves nil = Leaves.nil
Copies-Leaves (cons {qs} l stands next meta den t) =
    Leaves.cons l [] qs stands next refl refl (Copies-Leaves t)

Copies-IsLive :
    {h g : Heap Cell} {metadata : ℕ} {o : Option ℕ} {qs : List ℕ} {rs : List (Option Header)}
    → Copies h g metadata o qs rs
    → All (IsLive g) qs
Copies-IsLive nil = tt
Copies-IsLive (cons l stands next meta den t) = ((leaf_cell l, stands), Copies-IsLive t)

-- The metadata is none of the leaves.
Copies-metadata :
    {h g : Heap Cell} {metadata : ℕ} {o : Option ℕ} {qs : List ℕ} {rs : List (Option Header)}
    (a n : ℕ)
    → Copies h g metadata o qs rs
    → g.cell a ≡ some (metadata_cell n)
    → contains qs a ≡ false
Copies-metadata a n nil e = refl
Copies-metadata {g} a n (cons {p} l stands next meta den t) e = elim (Bool-cases (a == p)) [
  | inl same ↦
      let same' : a ≡ p = ground (arith, same) in
      let both : g.cell p ≡ some (metadata_cell n) = rw same' at e in cc
  | inr other ↦ ground (arith, other, Copies-metadata a n t e)
]

new_above :
    (metadata from : ℕ) (qs : List ℕ)
    → ((a : ℕ) → contains qs a ≡ true → from ≤ a)
    → from ≤ metadata
    → (a : ℕ) → contains (metadata ∷ qs) a ≡ true
    → from ≤ a
new_above metadata from qs fresh e a i = elim (Bool-cases (a == metadata)) [
  | inl same ↦ ground (arith, same, e)
  | inr other ↦ fresh a (ground (arith, i, other))
]

-- Memory that has grown by these objects, and lost them.
cell-back :
    (h g k : Heap Cell) (ps : List ℕ)
    → IsHeap h
    → ((a : ℕ) → contains ps a ≡ true → h.next ≤ a)
    → ((a : ℕ) → contains ps a ≡ false → g.cell a ≡ h.cell a)
    → Without ps g k
    → (a : ℕ) → k.cell a ≡ h.cell a
cell-back h g k ps v above exact out a = elim (Bool-cases (contains ps a)) [
  | inl inside ↦
      let gone : k.cell a ≡ none = ground (arith, inside, out a) in
      let never = v a (above a inside) in cc
  | inr outside ↦ ground (arith, outside, out a, exact a outside)
]

returned :
    (h g : Heap Cell) (ends : Option (ℕ × ℕ)) (rs : List (Option Header))
    → IsHeap h
    → IsFound h g ends rs
    → (k : Heap Cell) × (append_destroy false g (head_of ends) ≡ ok k)
      × ((a : ℕ) → k.cell a ≡ h.cell a)
unfolding append_destroy leaves_destroy
returned h g none rs v f = (g, refl, f.result.1)
returned h g (some (head, tail)) rs v f =
    let found = f.result in
    let (first, at_head, meta) = first-copy head found.copies in
    let (k, run, out) =
      append_destroy-Without false g head found.metadata first found.addresses f.heap at_head meta
        (Copies-Leaves found.copies)
        (Copies-metadata found.metadata (length rs) found.copies found.counted, found.distinct)
        ((metadata_cell (length rs), found.counted), Copies-IsLive found.copies) in
    let all = found.metadata ∷ found.addresses in
    let above = new_above found.metadata h.next found.addresses found.fresh found.fresh_metadata in
    (k, run, cell-back h g k all v above found.exact out)

-- A search of a header list in memory, whose result `sipster_sip_header_append_destroy` then frees without
-- the headers, comes through, and leaves at every address what was there before.
pub search-append_destroy :
    (h : Heap Cell) (i : HeaderId) (first last : Option ℕ) (c : Chain)
    → IsHeap h
    → Represents h first last c
    → (o : Option ℕ) × (g : Heap Cell) × (k : Heap Cell) × (search h i first ≡ ok (o, g))
      × (append_destroy false g o ≡ ok k)
      × ((a : ℕ) → k.cell a ≡ h.cell a)
search-append_destroy h i first last c v r =
    let (ends, g, run, f) = search-IsFound h i first last c v r in
    let (k, freed, same) = returned h g ends (collect i c.leaves).headers v f in
    (head_of ends, g, k, run, freed, same)
