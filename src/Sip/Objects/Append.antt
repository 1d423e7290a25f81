-- ===== src/Sip/Objects/Append.antt =====
-- An append in memory is the append to the list.
use sipster.Base.{
  ℕ, ◌+◌, ◌%◌, ◌^◌, ◌<◌, true, false, List, [], ◌∷◌, ◌++◌, Option, none, some, ◌≡◌, refl, sym, ap,
  ◌∙◌, arith, ok, contains, ◌==◌, Bool-cases, inl, inr,
}
use sipster.Memory.{Heap, update, allocate}
use sipster.Memory.Freeing.{Distinct-append, load-live, store-live, IsHeap, IsLive-below, Distinct}
use sipster.Sip.Header.{Header}
use sipster.Sip.Chain.{Leaf, Chain, last?, next_index, append_new_header}
use sipster.Sip.Objects.{
  Cell, LeafCell, header_cell, leaf_cell, metadata_cell, as_leaf, as_metadata, append_leaf,
  new_cell,
}
use sipster.Sip.Objects.Lists.{
  nil, cons, Counted, Counted-append, Denotes, Denotes-same, KeepsHeaders, Linked, Linked-absent,
  Linked-append, Linked-cell, Represents, first_pointer, first_pointer-kept, last-cell,
  last_address, last_address-append, last_address-some,
}

abbrev pub Appended : Heap Cell → Option ℕ → Option ℕ → Option ℕ → Header → Chain → Type 0
Appended h first last header x c =
    (new : ℕ) × (g : Heap Cell) × (append_leaf h last header ≡ ok (new, g))
    × IsHeap g
    × Represents g (first_pointer first new) (some new) (append_new_header c x)

abbrev chain : List Leaf → ℕ → Option ℕ → Chain
chain ls count first = record { leaves = ls; count = count; first_header = first }

append_leaf-first :
    (h : Heap Cell) (header : Option ℕ) (x : Header) (first : Option ℕ)
    → IsHeap h
    → Denotes h header (some x)
    → Appended h none none header x (chain [] 0 first)
unfolding append_leaf allocate append_new_header next_index
append_leaf-first h header x first v den =
    let new = h.next in
    let l : LeafCell = record (new_cell header) { metadata = some (new + 1) } in
    let h1 = (allocate h (leaf_cell (new_cell header))).1 in
    let h2 = (allocate h1 (metadata_cell 1)).1 in
    let g = update h2 new (some (leaf_cell l)) in
    let keeps : KeepsHeaders h g =
      λ a y u w e. ground (arith, e, IsLive-below h a v (header_cell y u w, e)) in
    (
      new,
      g,
      rw (store-live h2 new (leaf_cell l) (leaf_cell (new_cell header)) (ground arith)) refl,
      λ a above. ground (arith, above, v a (omega (arith, above))),
      record {
        addresses = new ∷ [];
        metadata = new + 1;
        linked =
            cons l (ground arith) refl refl refl (Denotes-same h g header (some x) keeps den) nil;
        distinct = (refl, tt);
        is_last = refl;
        counted = ground arith;
      },
    )

-- The memory behind an append to a list that has leaves, the last of them at `q`.
module _ (h : Heap Cell) (metadata count q i : ℕ) (header own_header next : Option ℕ) where
  abbrev old_cell : LeafCell
  old_cell = record { index = i; header = own_header; metadata = some metadata; next = next }

  abbrev added_cell : LeafCell
  added_cell = record {
    index = (i + 1) % 2 ^ 16;
    header = header;
    metadata = some metadata;
    next = none;
  }

  abbrev with_new : Heap Cell
  with_new = (allocate h (leaf_cell (new_cell header))).1

  abbrev with_count : Heap Cell
  with_count = update with_new metadata (some (metadata_cell (count + 1)))

  abbrev with_next : Heap Cell
  with_next = update with_count q (some (leaf_cell (record old_cell { next = some h.next })))

  abbrev with_all : Heap Cell
  with_all = update with_next h.next (some (leaf_cell added_cell))

  with_all-added : with_all.cell h.next ≡ some (leaf_cell added_cell)
  with_all-added = ground arith

  module _ (v : IsHeap h) (stands : h.cell q ≡ some (leaf_cell old_cell))
      (counted : h.cell metadata ≡ some (metadata_cell count)) where
    q_below : q < h.next
    q_below = IsLive-below h q v (leaf_cell old_cell, stands)

    metadata_below : metadata < h.next
    metadata_below = IsLive-below h metadata v (metadata_cell count, counted)

    apart : (q == metadata) ≡ false
    apart = elim (Bool-cases (q == metadata)) [
      | inl same ↦
          let same' : q ≡ metadata = ground (arith, same) in
          let both : h.cell metadata ≡ some (leaf_cell old_cell) = rw same' at stands in cc
      | inr other ↦ other
    ]

    append_leaf-with_all : append_leaf h (some q) header ≡ ok (h.next, with_all)
    unfolding append_leaf allocate as_leaf as_metadata
    append_leaf-with_all =
        let q_first : with_new.cell q ≡ some (leaf_cell old_cell) =
          ground (arith, stands, q_below) in
        let m_first : with_new.cell metadata ≡ some (metadata_cell count) =
          ground (arith, counted, metadata_below) in
        let q_second : with_count.cell q ≡ some (leaf_cell old_cell) =
          ground (arith, q_first, apart) in
        let new_third : with_next.cell h.next ≡ some (leaf_cell (new_cell header)) =
          ground (arith, q_below, metadata_below) in
        rw
          (
            load-live with_new q (leaf_cell old_cell) q_first,
            load-live with_new metadata (metadata_cell count) m_first,
            store-live with_new metadata (metadata_cell (count + 1)) (metadata_cell count) m_first,
            store-live with_count q (leaf_cell (record old_cell { next = some h.next }))
                (leaf_cell old_cell) q_second,
            store-live with_next h.next (leaf_cell added_cell) (leaf_cell (new_cell header))
                new_third,
          )
          refl

    with_all-IsHeap : IsHeap with_all
    unfolding allocate
    with_all-IsHeap a above =
        ground (arith, above, v a (omega (arith, above)), q_below, metadata_below)

    with_all-KeepsHeaders : KeepsHeaders h with_all
    unfolding allocate
    with_all-KeepsHeaders a y u w f =
        ground (arith, f, IsLive-below h a v (header_cell y u w, f), stands, counted)

    with_all-leaf :
        (a : ℕ) (l : LeafCell)
        → h.cell a ≡ some (leaf_cell l)
        → (a == q) ≡ false
        → with_all.cell a ≡ h.cell a
    unfolding allocate
    with_all-leaf a l f other =
        ground (arith, f, other, IsLive-below h a v (leaf_cell l, f), counted)

    with_all-last : with_all.cell q ≡ some (leaf_cell (record old_cell { next = some h.next }))
    with_all-last = ground (arith, q_below)

    with_all-counted : with_all.cell metadata ≡ some (metadata_cell (count + 1))
    with_all-counted = ground (arith, metadata_below, apart)

append_leaf-behind :
    (h : Heap Cell) (metadata count q i : ℕ) (header own_header next first : Option ℕ) (x : Header)
    (bs : List ℕ) (ls : List Leaf) (start : Option ℕ) (m : Leaf)
    → IsHeap h
    → h.cell q ≡ some (leaf_cell (old_cell h metadata count q i header own_header next))
    → h.cell metadata ≡ some (metadata_cell count)
    → Denotes h header (some x)
    → Linked h metadata first bs ls
    → Distinct bs
    → last_address bs ≡ some q
    → i ≡ m.index
    → last? ls ≡ some m
    → Appended h first (some q) header x (chain ls count start)
unfolding append_new_header next_index
append_leaf-behind h metadata count q i header own_header next first x bs ls start m v stands
      counted den linked d e index last =
    let new = h.next in
    let g = with_all h metadata count q i header own_header next in
    let keeps =
      with_all-KeepsHeaders h metadata count q i header own_header next v stands counted in
    let l = added_cell h metadata count q i header own_header next in
    let tail =
      cons {m = record { index = (m.index + 1) % 2 ^ 16; header = some x }} l
        (with_all-added h metadata count q i header own_header next) refl refl
        (ap (λ (n : ℕ). (n + 1) % 2 ^ 16) index) (Denotes-same h g header (some x) keeps den) nil in
    let same : (a : ℕ) → contains bs a ≡ true → (a == q) ≡ false → g.cell a ≡ h.cell a =
      λ a inside differs.
        let (k, f) = Linked-cell a linked inside in
        with_all-leaf h metadata count q i header own_header next v stands counted a k f differs in
    let all =
      Linked-append g q new (old_cell h metadata count q i header own_header next)
        (record { index = (m.index + 1) % 2 ^ 16; header = some x }) linked d e stands same keeps
        (with_all-last h metadata count q i header own_header next v stands counted) tail in
    (
      new,
      g,
      append_leaf-with_all h metadata count q i header own_header next v stands counted,
      with_all-IsHeap h metadata count q i header own_header next v stands counted,
      record {
        addresses = bs ++ new ∷ [];
        metadata = metadata;
        linked = rw (first_pointer-kept q new linked e, last) all;
        distinct = Distinct-append bs new d (Linked-absent new linked (v new (omega arith)));
        is_last = sym (last_address-append bs new);
        counted =
            Counted-append g metadata (count + 1) new bs
              (with_all-counted h metadata count q i header own_header next v stands counted);
      },
    )

append_leaf-Linked :
    (h : Heap Cell) (metadata count : ℕ) (first header : Option ℕ) (x : Header) (bs : List ℕ)
    (ls : List Leaf) (start : Option ℕ)
    → IsHeap h
    → Denotes h header (some x)
    → Linked h metadata first bs ls
    → Distinct bs
    → Counted h metadata count bs
    → Appended h first (last_address bs) header x (chain ls count start)
append_leaf-Linked h metadata count first header x bs ls start v den nil d counted =
    rw counted (append_leaf-first h header x start v den)
append_leaf-Linked h metadata count first header x bs ls start v den
      (cons {p} {bs = cs} l stands next meta index den' t) d counted =
    let linked = cons l stands next meta index den' t in
    let (q, e) = last_address-some p cs in
    let (old, m, there, meta', index', last) = last-cell q linked e in
    let there' : h.cell q ≡ some (leaf_cell (record old { metadata = some metadata })) =
      there ∙ ap (λ (o : Option ℕ). some (leaf_cell (record old { metadata = o }))) meta' in
    rw e (
      append_leaf-behind h metadata count q old.index header old.header old.next first x (p ∷ cs) ls
        start m v there' counted den linked d e index' last)

-- An append in memory refines the append to the list: where `firstHeader` and `lastHeader` stand for a
-- list and the pointer for a header, `sipster_sip_append_new_header` comes through, and its result as
-- `lastHeader`, and as `firstHeader` where that was NULL, stand for the list with the header.
pub append_leaf-Represents :
    (h : Heap Cell) (first last header : Option ℕ) (c : Chain) (x : Header)
    → IsHeap h
    → Represents h first last c
    → Denotes h header (some x)
    → Appended h first last header x c
append_leaf-Represents h first last header c x v r den = rw r.is_last (
    append_leaf-Linked h r.metadata c.count first header x r.addresses c.leaves c.first_header v den
      r.linked r.distinct r.counted)
