-- ===== src/Sip/Objects/Search/Loop.antt =====
-- A search in memory finds what the search of the list finds.
use sipster.Base.{
  ℕ, zero, suc, ◌<◌, Bool, true, false, List, [], ◌∷◌, ◌++◌, Option, none, some, ◌≡◌, refl, sym,
  ◌∙◌, arith, ok, length, All, append-nil, append_assoc, Bool-cases, inl, inr,
}
use sipster.Memory.{Heap}
use sipster.Memory.Freeing.{load-live, length-live, IsLive, IsHeap, IsLive-below}
use sipster.Sip.Enums.{HeaderId}
use sipster.Sip.Header.{Header}
use sipster.Sip.Chain.{Leaf, Chain, holds, collect}
use sipster.Sip.Objects.{Cell, header_cell, leaf_cell, as_leaf, as_header}
use sipster.Sip.Objects.Lists.{Denotes, Linked, nil, cons, Represents}
use sipster.Sip.Objects.Search.{found_if, header_matches, search, search_loop, head_of}
use sipster.Sip.Objects.Search.Found.{IsFound}
use sipster.Sip.Objects.Search.First.{found_leaf-first}
use sipster.Sip.Objects.Search.Steps.{found_leaf-next}

-- The test reads what the list says, where the first memory is kept.
header_matches-holds :
    (h g : Heap Cell) (i : HeaderId) (o : Option ℕ) (r : Option Header)
    → IsHeap h
    → ((a : ℕ) → a < h.next → g.cell a ≡ h.cell a)
    → Denotes h o r
    → header_matches g i o ≡ ok (holds i r)
unfolding header_matches as_header
header_matches-holds h g i none r v kept den = rw den refl
header_matches-holds h g i (some q) r v kept (x, parsed, first, stands, it) =
    let there = kept q (IsLive-below h q v (header_cell x parsed first, stands)) ∙ stands in
    rw (load-live g q (header_cell x parsed first) there, it) refl

abbrev one_if : Bool → Option Header → List (Option Header)
one_if true r = r ∷ []
one_if false r = []

found_if-IsFound :
    (h g : Heap Cell) (here : Bool) (ends : Option (ℕ × ℕ)) (header : Option ℕ)
    (rs : List (Option Header)) (r : Option Header)
    → IsFound h g ends rs
    → Denotes h header r
    → (ends' : Option (ℕ × ℕ)) × (k : Heap Cell) × (found_if here g ends header ≡ ok (ends', k))
      × IsFound h k ends' (rs ++ one_if here r)
unfolding found_if
found_if-IsFound h g false ends header rs r f den =
    let whole : IsFound h g ends (rs ++ []) = rw (append-nil rs) f in (ends, g, refl, whole)
found_if-IsFound h g true none header [] r f den = found_leaf-first h g header r f den
found_if-IsFound h g true none header (x ∷ rs) r f den = let no : x ∷ rs ≡ [] = f.result.0 in cc
found_if-IsFound h g true (some (head, tail)) header rs r f den =
    found_leaf-next h g head tail header rs r f den

collect-headers :
    (i : HeaderId) (m : Leaf) (ls : List Leaf)
    → (collect i (m ∷ ls)).headers ≡ one_if (holds i m.header) m.header ++ (collect i ls).headers
unfolding collect
collect-headers i m ls = elim (Bool-cases (holds i m.header)) [
  | inl same ↦ rw same refl
  | inr other ↦ rw other refl
]

search_loop-IsFound :
    {h : Heap Cell} {metadata : ℕ} {current : Option ℕ} {bs : List ℕ} {ls : List Leaf}
    (g : Heap Cell) (fuel : ℕ) (i : HeaderId) (ends : Option (ℕ × ℕ)) (rs : List (Option Header))
    → Linked h metadata current bs ls
    → IsHeap h
    → length bs < fuel
    → IsFound h g ends rs
    → (ends' : Option (ℕ × ℕ)) × (k : Heap Cell) × (search_loop fuel g i ends current
        ≡ ok (ends', k))
      × IsFound h k ends' (rs ++ (collect i ls).headers)
unfolding search_loop as_leaf collect
search_loop-IsFound g zero i ends rs linked v e f = absurd (omega (arith, e))
search_loop-IsFound {h} g (suc fuel) i ends rs nil v e f =
    (ends, g, refl, let whole : IsFound h g ends (rs ++ []) = rw (append-nil rs) f in whole)
search_loop-IsFound {h} g (suc fuel) i ends rs (cons {p} {ls} {m} l stands next meta index den t) v
      e f =
    let there = f.kept p (IsLive-below h p v (leaf_cell l, stands)) ∙ stands in
    let (ends1, g1, run, f1) =
      found_if-IsFound h g (holds i m.header) ends l.header rs m.header f den in
    let (ends2, g2, run2, f2) =
      search_loop-IsFound g1 fuel i ends1 (rs ++ one_if (holds i m.header) m.header) t v
        (omega (arith, e)) f1 in
    (
      ends2,
      g2,
      rw
          (
            load-live g p (leaf_cell l) there,
            header_matches-holds h g i l.header m.header v f.kept den,
            run,
            next,
          )
          run2,
      rw
          (
            collect-headers i m ls,
            sym (append_assoc rs (one_if (holds i m.header) m.header) (collect i ls).headers),
          )
          f2,
    )

Linked-IsLive :
    {h : Heap Cell} {metadata : ℕ} {o : Option ℕ} {bs : List ℕ} {ls : List Leaf}
    → Linked h metadata o bs ls
    → All (IsLive h) bs
Linked-IsLive nil = tt
Linked-IsLive (cons l stands next meta index den t) = ((leaf_cell l, stands), Linked-IsLive t)

IsFound-none : (h : Heap Cell) → IsHeap h → IsFound h h none []
IsFound-none h v = record {
  heap = v;
  grown = omega arith;
  kept = λ a below. refl;
  result = (refl, λ a. refl);
}

-- A search in memory refines the search of the list: where `firstHeader` stands for a list in a heap,
-- `sipster_sip_get_header` comes through, every object that was there stays as it was, and the result
-- is NULL where no header has the id, and otherwise a list of new leaves, behind the same headers as the
-- search of the list finds, in their order, whose metadata counts them.
pub search-IsFound :
    (h : Heap Cell) (i : HeaderId) (first last : Option ℕ) (c : Chain)
    → IsHeap h
    → Represents h first last c
    → (ends : Option (ℕ × ℕ)) × (g : Heap Cell) × (search h i first ≡ ok (head_of ends, g))
      × IsFound h g ends (collect i c.leaves).headers
unfolding search
search-IsFound h i first last c v r =
    let few : length r.addresses < suc h.next =
      omega (arith, length-live h r.addresses v r.distinct (Linked-IsLive r.linked)) in
    let (ends, g, run, f) =
      search_loop-IsFound h (suc h.next) i none [] r.linked v few (IsFound-none h v) in
    (ends, g, rw run refl, f)
