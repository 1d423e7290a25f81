-- ===== src/Sip/Objects/Search/Steps.antt =====
-- A later leaf that a search in memory finds.
use sipster.Base.{
  ℕ, ◌+◌, ◌%◌, ◌^◌, ◌<◌, false, List, [], ◌∷◌, ◌++◌, Option, some, ◌≡◌, refl, sym, ap, ◌∙◌, arith,
  ok, ◌==◌, Bool-cases, inl, inr, length, length-append,
}
use sipster.Memory.{Heap, update, allocate}
use sipster.Memory.Freeing.{load-live, store-live, IsHeap, IsLive-below, Distinct-append}
use sipster.Sip.Header.{Header}
use sipster.Sip.Objects.{Cell, LeafCell, leaf_cell, metadata_cell, as_leaf, as_metadata, new_cell}
use sipster.Sip.Objects.Lists.{last_address-contains, Denotes, last_address-append}
use sipster.Sip.Objects.Search.{found_next, found_leaf}
use sipster.Sip.Objects.Search.Found.{
  nil, cons, IsFound, last-copy, Copies-absent, Copies-append, first-copy, all_fresh,
  contains-before, apart_from_all,
}

-- The memory behind a later leaf: `first` is the result's first leaf, `last` its last one, at `tail`.
module _ (g : Heap Cell) (metadata count head tail : ℕ) (header : Option ℕ)
    (first last : LeafCell) where
  abbrev linked_cell : LeafCell
  linked_cell = record last { index = (first.index + 1) % 2 ^ 16; next = some g.next }

  abbrev copy_cell : LeafCell
  copy_cell = record (new_cell header) { metadata = some metadata }

  abbrev with_new : Heap Cell
  with_new = (allocate g (leaf_cell (new_cell header))).1

  abbrev with_next : Heap Cell
  with_next = update with_new tail (some (leaf_cell linked_cell))

  abbrev with_copy : Heap Cell
  with_copy = update with_next g.next (some (leaf_cell copy_cell))

  abbrev with_all : Heap Cell
  with_all = update with_copy metadata (some (metadata_cell (count + 1)))

  module _ (v : IsHeap g) (at_head : g.cell head ≡ some (leaf_cell first))
      (at_tail : g.cell tail ≡ some (leaf_cell last))
      (counted : g.cell metadata ≡ some (metadata_cell count)) where
    head_below : head < g.next
    head_below = IsLive-below g head v (leaf_cell first, at_head)

    tail_below : tail < g.next
    tail_below = IsLive-below g tail v (leaf_cell last, at_tail)

    metadata_below : metadata < g.next
    metadata_below = IsLive-below g metadata v (metadata_cell count, counted)

    apart : (metadata == tail) ≡ false
    apart = elim (Bool-cases (metadata == tail)) [
      | inl same ↦
          let same' : metadata ≡ tail = ground (arith, same) in
          let both : g.cell tail ≡ some (metadata_cell count) = rw same' at counted in cc
      | inr other ↦ other
    ]

    found_next-with_all :
        first.metadata ≡ some metadata → found_next g head tail header ≡ ok (g.next, with_all)
    unfolding found_next allocate as_leaf as_metadata
    found_next-with_all meta =
        let h_first : with_new.cell head ≡ some (leaf_cell first) =
          ground (arith, at_head, head_below) in
        let t_first : with_new.cell tail ≡ some (leaf_cell last) =
          ground (arith, at_tail, tail_below) in
        let new_next : with_next.cell g.next ≡ some (leaf_cell (new_cell header)) =
          ground (arith, tail_below) in
        let m_copy : with_copy.cell metadata ≡ some (metadata_cell count) =
          ground (arith, counted, metadata_below, apart) in
        rw
          (
            load-live with_new head (leaf_cell first) h_first,
            load-live with_new tail (leaf_cell last) t_first,
            store-live with_new tail (leaf_cell linked_cell) (leaf_cell last) t_first,
            meta,
            store-live with_next g.next (leaf_cell copy_cell) (leaf_cell (new_cell header))
                new_next,
            load-live with_copy metadata (metadata_cell count) m_copy,
            store-live with_copy metadata (metadata_cell (count + 1)) (metadata_cell count) m_copy,
          )
          refl

    with_all-IsHeap : IsHeap with_all
    unfolding allocate
    with_all-IsHeap a above =
        ground (arith, above, v a (omega (arith, above)), tail_below, metadata_below)

    with_all-leaf :
        (a : ℕ) (l : LeafCell)
        → g.cell a ≡ some (leaf_cell l)
        → (a == tail) ≡ false
        → with_all.cell a ≡ some (leaf_cell l)
    unfolding allocate
    with_all-leaf a l f other =
        ground (arith, f, other, IsLive-below g a v (leaf_cell l, f), counted)

    with_all-tail : with_all.cell tail ≡ some (leaf_cell linked_cell)
    with_all-tail = ground (arith, tail_below, counted, at_tail)

    with_all-new : with_all.cell g.next ≡ some (leaf_cell copy_cell)
    with_all-new = ground (arith, metadata_below)

    with_all-counted : with_all.cell metadata ≡ some (metadata_cell (count + 1))
    with_all-counted = ground arith

    -- What stands elsewhere stays.
    with_all-kept :
        (a : ℕ)
        → (a == g.next) ≡ false
        → (a == tail) ≡ false
        → (a == metadata) ≡ false
        → with_all.cell a ≡ g.cell a
    unfolding allocate
    with_all-kept a other one two = ground (arith, other, one, two)

pub found_leaf-next :
    (h g : Heap Cell) (head tail : ℕ) (header : Option ℕ) (rs : List (Option Header))
    (r : Option Header)
    → IsFound h g (some (head, tail)) rs
    → Denotes h header r
    → (ends : Option (ℕ × ℕ)) × (k : Heap Cell) × (found_leaf g (some (head, tail)) header
        ≡ ok (ends, k))
      × IsFound h k ends (rs ++ r ∷ [])
unfolding found_leaf allocate
found_leaf-next h g head tail header rs r f den =
    let found = f.result in
    let m = found.metadata in
    let qs = found.addresses in
    let v = f.heap in
    let (first, at_head, meta) = first-copy head found.copies in
    let (last, at_tail, meta') = last-copy tail found.copies found.is_last in
    let n = length rs in
    let k = with_all g m n head tail header first last in
    let counted = found.counted in
    let inside = last_address-contains qs tail found.is_last in
    let tail_new = found.fresh tail inside in
    let copy =
      cons (copy_cell g m n head tail header first last)
        (with_all-new g m n head tail header first last v at_head at_tail counted) refl refl den
        nil in
    let all =
      Copies-append k tail g.next ((first.index + 1) % 2 ^ 16) last r found.copies found.distinct
        found.is_last at_tail
        (with_all-leaf g m n head tail header first last v at_head at_tail counted)
        (with_all-tail g m n head tail header first last v at_head at_tail counted) copy in
    (
      some (head, g.next),
      k,
      rw (found_next-with_all g m n head tail header first last v at_head at_tail counted meta)
          refl,
      record {
        heap = with_all-IsHeap g m n head tail header first last v at_head at_tail counted;
        grown = omega (arith, f.grown);
        kept = λ a below.
            with_all-kept g m n head tail header first last v at_head at_tail counted a
              (ground (arith, below, f.grown)) (ground (arith, below, tail_new))
              (ground (arith, below, found.fresh_metadata))
            ∙ f.kept a below;
        result = record {
          addresses = qs ++ g.next ∷ [];
          metadata = m;
          copies = all;
          distinct =
              Distinct-append qs g.next found.distinct
                (Copies-absent g.next found.copies (v g.next (omega arith)));
          is_last = last_address-append qs g.next;
          fresh = all_fresh g.next h.next qs found.fresh f.grown;
          fresh_metadata = found.fresh_metadata;
          counted =
              with_all-counted g m n head tail header first last v at_head at_tail counted
              ∙ ap (λ (i : ℕ). some (metadata_cell i)) (sym (length-append rs (r ∷ [])));
          exact = λ a i.
              let (one, other, two) = apart_from_all m g.next tail a qs inside i in
              with_all-kept g m n head tail header first last v at_head at_tail counted a other two
                one
              ∙ found.exact a (ground (arith, one, contains-before m g.next a qs i));
        };
      },
    )
