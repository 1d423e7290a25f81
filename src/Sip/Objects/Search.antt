-- ===== src/Sip/Objects/Search.antt =====
-- `sipster_sip_get_header` in memory: the leaves of its result are new, and share the headers.
pub mod Found
pub mod First
pub mod Steps
pub mod Loop
pub mod Freed
use sipster.Base.{
  ℕ, zero, suc, ◌+◌, ◌%◌, ◌^◌, Bool, true, false, Option, none, some, Exec, ok, fault, out_of_fuel,
  ◌>>=◌, deref,
}
use sipster.Memory.{Heap, allocate, load, store}
use sipster.Sip.Enums.{HeaderId, same_header}
use sipster.Sip.Objects.{
  Cell, LeafCell, leaf_cell, metadata_cell, as_leaf, as_metadata, as_header, new_cell,
}

-- The test on one leaf.
unfoldable pub header_matches : Heap Cell → HeaderId → Option ℕ → Exec Bool
unfolding as_header
header_matches h i none = ok false
header_matches h i (some p) = do
  c ← load h p
  (x, parsed, first) ← as_header c
  ok (same_header x.header_id i)

-- The first leaf that is found: `head` and `tail` are NULL.
unfoldable pub found_first : Heap Cell → Option ℕ → Exec (ℕ × Heap Cell)
found_first h header =
    let (new, h1) = allocate h (leaf_cell (new_cell header)) in
    let (metadata, h2) = allocate h1 (metadata_cell 0) in
    do
      h3 ← store h2 new (leaf_cell (record (new_cell header) { metadata = some metadata }))
      h4 ← store h3 metadata (metadata_cell 1)
      ok (new, h4)

-- A later one: the leaf before it gets the index of the first leaf and one.
unfoldable pub found_next : Heap Cell → ℕ → ℕ → Option ℕ → Exec (ℕ × Heap Cell)
unfolding as_leaf as_metadata
found_next h head tail header =
    let (new, h1) = allocate h (leaf_cell (new_cell header)) in
    do
      c ← load h1 head
      first ← as_leaf c
      d ← load h1 tail
      last ← as_leaf d
      h2 ←
          store h1 tail
            (leaf_cell (record last { index = (first.index + 1) % 2 ^ 16; next = some new }))
      metadata ← deref first.metadata
      h3 ← store h2 new (leaf_cell (record (new_cell header) { metadata = some metadata }))
      e ← load h3 metadata
      count ← as_metadata e
      h4 ← store h3 metadata (metadata_cell (count + 1))
      ok (new, h4)

-- `head` and `tail` behind a leaf that is found.
unfoldable pub found_leaf :
    Heap Cell → Option (ℕ × ℕ) → Option ℕ → Exec (Option (ℕ × ℕ) × Heap Cell)
unfolding found_first found_next
found_leaf h none header = do (new, h') ← found_first h header; ok (some (new, new), h')
found_leaf h (some (head, tail)) header = do
  (new, h') ← found_next h head tail header
  ok (some (head, new), h')

unfoldable pub found_if :
    Bool → Heap Cell → Option (ℕ × ℕ) → Option ℕ → Exec (Option (ℕ × ℕ) × Heap Cell)
unfolding found_leaf
found_if false h ends header = ok (ends, h)
found_if true h ends header = found_leaf h ends header

unfoldable pub search_loop :
    ℕ → Heap Cell → HeaderId → Option (ℕ × ℕ) → Option ℕ → Exec (Option (ℕ × ℕ) × Heap Cell)
unfolding header_matches found_if as_leaf as_header as_metadata
search_loop zero h i ends current = fault out_of_fuel
search_loop (suc fuel) h i ends none = ok (ends, h)
search_loop (suc fuel) h i ends (some p) = do
  c ← load h p
  l ← as_leaf c
  here ← header_matches h i l.header
  (ends', h') ← found_if here h ends l.header
  search_loop fuel h' i ends' l.next

abbrev pub head_of : Option (ℕ × ℕ) → Option ℕ
head_of none = none
head_of (some (head, tail)) = some head

-- `sipster_sip_get_header`.
unfoldable pub search : Heap Cell → HeaderId → Option ℕ → Exec (Option ℕ × Heap Cell)
search h i first = do (ends, h') ← search_loop (suc h.next) h i none first; ok (head_of ends, h')
