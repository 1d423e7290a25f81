-- ===== src/Sip/Objects.antt =====
-- The objects of a message in memory, and the functions of src/sip_headers.cpp that link and free
-- them: leaves with their shared metadata, headers, parameters, addresses.
pub mod Headers
pub mod Leaves
pub mod Append
pub mod Lists
pub mod Search
use sipster.Base.{
  ℕ, zero, suc, ◌+◌, ◌%◌, ◌^◌, Bool, true, false, Option, none, some, Exec, ok, fault, over_read,
  out_of_fuel, ◌>>=◌, deref, get_elem?,
}
use sipster.Memory.{Heap, allocate, load, store, release, free_pointer}
use sipster.Sip.Enums.{header_index}
use sipster.Sip.Parameter.{Parameter}
use sipster.Sip.Header.{Header, Codec, addr_codec, via_codec, ct_codec, header_prototypes}

-- `struct _SipsterSipHeaderLeaf`, with its pointers.
pub record LeafCell : Type 0 where
  pub index : ℕ
  pub header : Option ℕ
  pub metadata : Option ℕ
  pub next : Option ℕ

-- A header with its `parsedAddress` and its first parameter, a parameter with the next one, what a
-- `parsedAddress` points at, a leaf, and the `count` of the metadata.
pub data Cell : Type 0 where
  header_cell : Header → Option ℕ → Option ℕ → Cell
  parameter_cell : Parameter → Option ℕ → Cell
  address_cell : Cell
  leaf_cell : LeafCell → Cell
  metadata_cell : ℕ → Cell

-- The object at an address, read as what the code takes it for.
as_leaf : Cell → Exec LeafCell
as_leaf (leaf_cell l) = ok l
as_leaf _ = fault over_read

as_metadata : Cell → Exec ℕ
as_metadata (metadata_cell n) = ok n
as_metadata _ = fault over_read

as_parameter : Cell → Exec (Option ℕ)
as_parameter (parameter_cell p n) = ok n
as_parameter _ = fault over_read

as_header : Cell → Exec (Header × Option ℕ × Option ℕ)
as_header (header_cell h parsed first) = ok (h, parsed, first)
as_header _ = fault over_read

-- `param_destroy`.
unfoldable pub param_destroy : ℕ → Heap Cell → Option ℕ → Exec (Heap Cell)
unfolding as_parameter
param_destroy zero h p = fault out_of_fuel
param_destroy (suc fuel) h none = ok h
param_destroy (suc fuel) h (some p) = do
  c ← load h p
  next ← as_parameter c
  h' ← release h p
  param_destroy fuel h' next

-- `addr_destroy`, `via_destroy`, which leaves the parsed address, and `ct_destroy`. Every parameter has
-- an address below `next`.
abbrev addr_destroy : Heap Cell → Option ℕ → Option ℕ → Exec (Heap Cell)
addr_destroy h parsed first = do h' ← free_pointer h parsed; param_destroy (suc h.next) h' first

abbrev via_destroy : Heap Cell → Option ℕ → Option ℕ → Exec (Heap Cell)
via_destroy h parsed first = param_destroy (suc h.next) h first

abbrev ct_destroy : Heap Cell → Option ℕ → Option ℕ → Exec (Heap Cell)
ct_destroy h parsed first = param_destroy (suc h.next) h first

-- A call through the `destroy` pointer of an entry; `no_destroy` does nothing.
unfoldable pub destroy_content : Codec → Heap Cell → Option ℕ → Option ℕ → Exec (Heap Cell)
destroy_content addr_codec h parsed first = addr_destroy h parsed first
destroy_content via_codec h parsed first = via_destroy h parsed first
destroy_content ct_codec h parsed first = ct_destroy h parsed first
destroy_content _ h parsed first = ok h

-- `sipster_sip_header_destroy`.
unfoldable pub header_destroy : Heap Cell → Option ℕ → Exec (Heap Cell)
unfolding as_header
header_destroy h none = ok h
header_destroy h (some p) = do
  c ← load h p
  (header, parsed, first) ← as_header c
  m ← deref (get_elem? header_prototypes (header_index header.header_id))
  h' ← destroy_content m.codec h parsed first
  release h' p

abbrev new_cell : Option ℕ → LeafCell
new_cell header = record { index = 0; header = header; metadata = none; next = none }

-- `sipster_sip_append_new_header`: the address of the new leaf.
unfoldable pub append_leaf : Heap Cell → Option ℕ → Option ℕ → Exec (ℕ × Heap Cell)
unfolding as_leaf as_metadata
append_leaf h none header =
    let (new, h1) = allocate h (leaf_cell (new_cell header)) in
    let (metadata, h2) = allocate h1 (metadata_cell 1) in
    do
      h3 ← store h2 new (leaf_cell (record (new_cell header) { metadata = some metadata }))
      ok (new, h3)
append_leaf h (some leaf) header =
    let (new, h1) = allocate h (leaf_cell (new_cell header)) in
    do
      c ← load h1 leaf
      old ← as_leaf c
      metadata ← deref old.metadata
      d ← load h1 metadata
      count ← as_metadata d
      h2 ← store h1 metadata (metadata_cell (count + 1))
      h3 ← store h2 leaf (leaf_cell (record old { next = some new }))
      h4 ← store h3 new (
          leaf_cell (record {
            index = (old.index + 1) % 2 ^ 16;
            header = header;
            metadata = some metadata;
            next = none;
          }))
      ok (new, h4)

destroy_header_if : Bool → Heap Cell → Option ℕ → Exec (Heap Cell)
destroy_header_if false h header = ok h
destroy_header_if true h header = header_destroy h header

-- The `while` of `sipster_sip_header_append_destroy`.
unfoldable pub leaves_destroy : ℕ → Bool → Heap Cell → Option ℕ → Exec (Heap Cell)
unfolding as_leaf destroy_header_if
leaves_destroy zero b h leaf = fault out_of_fuel
leaves_destroy (suc fuel) b h none = ok h
leaves_destroy (suc fuel) b h (some leaf) = do
  c ← load h leaf
  l ← as_leaf c
  h1 ← destroy_header_if b h l.header
  h2 ← release h1 leaf
  leaves_destroy fuel b h2 l.next

-- `sipster_sip_header_append_destroy`.
unfoldable pub append_destroy : Bool → Heap Cell → Option ℕ → Exec (Heap Cell)
unfolding as_leaf
append_destroy b h none = leaves_destroy (suc h.next) b h none
append_destroy b h (some leaf) = do
  c ← load h leaf
  l ← as_leaf c
  h' ← free_pointer h l.metadata
  leaves_destroy (suc h.next) b h' (some leaf)
