-- ===== src/Sip/Objects/Search/First.antt =====
-- The first leaf that a search in memory finds.
use sipster.Base.{ℕ, ◌+◌, [], ◌∷◌, Option, none, some, ◌≡◌, refl, arith, ok}
use sipster.Memory.{Heap, update, allocate}
use sipster.Memory.Freeing.{store-live}
use sipster.Sip.Header.{Header}
use sipster.Sip.Objects.{Cell, LeafCell, leaf_cell, metadata_cell, new_cell}
use sipster.Sip.Objects.Lists.{Denotes}
use sipster.Sip.Objects.Search.{found_first, found_leaf}
use sipster.Sip.Objects.Search.Found.{nil, cons, IsFound}

pub found_leaf-first :
    (h g : Heap Cell) (header : Option ℕ) (r : Option Header)
    → IsFound h g none []
    → Denotes h header r
    → (ends : Option (ℕ × ℕ)) × (k : Heap Cell) × (found_leaf g none header ≡ ok (ends, k))
      × IsFound h k ends (r ∷ [])
unfolding found_leaf found_first allocate
found_leaf-first h g header r f den =
    let new = g.next in
    let l : LeafCell = record (new_cell header) { metadata = some (new + 1) } in
    let h1 = (allocate g (leaf_cell (new_cell header))).1 in
    let h2 = (allocate h1 (metadata_cell 0)).1 in
    let h3 = update h2 new (some (leaf_cell l)) in
    let h4 = update h3 (new + 1) (some (metadata_cell 1)) in
    let v = f.heap in
    let grown = f.grown in
    (
      some (new, new),
      h4,
      rw
          (
            store-live h2 new (leaf_cell l) (leaf_cell (new_cell header)) (ground arith),
            store-live h3 (new + 1) (metadata_cell 1) (metadata_cell 0) (ground arith),
          )
          refl,
      record {
        heap = λ a above. ground (arith, above, v a (omega (arith, above)));
        grown = omega (arith, grown);
        kept = λ a below. ground (arith, below, grown, f.kept a below);
        result = record {
          addresses = new ∷ [];
          metadata = new + 1;
          copies = cons l (ground arith) refl refl den nil;
          distinct = (refl, tt);
          is_last = refl;
          fresh = λ a i. ground (arith, i, grown);
          fresh_metadata = omega (arith, grown);
          counted = ground arith;
          exact = λ a i. ground (arith, i, f.result.1 a);
        };
      },
    )
