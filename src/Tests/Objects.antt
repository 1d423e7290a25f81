-- ===== src/Tests/Objects.antt =====
-- Applications of the theorems on memory: headers and header lists that are appended and freed, and the
-- life of the library object.
use sipster.Base.{
  false, Option, ℕ, [], ◌∷◌, some, none, ◌≡◌, ◌↔◌, ◌⊎◌, refl, arith, ok, fault, bad_free, All, true,
  if◌then◌else◌, ◌==◌,
}
use sipster.Text.{ℤ, pos}
use sipster.Memory.{Heap}
use sipster.Memory.Freeing.{IsLive, IsHeap, Without, Distinct}
use sipster.Sip.Objects.{
  Cell, LeafCell, header_cell, parameter_cell, leaf_cell, metadata_cell, append_destroy,
}
use sipster.Sip.Objects.Headers.{IsHeaderAt, Params}
use sipster.Sip.Objects.Leaves.{Leaves, append_destroy-Without}
use sipster.Sip.Objects.Lists.{Linked, Represents}
use sipster.Sip.Enums.{HeaderId}
use sipster.Sip.Chain.{Chain, collect}
use sipster.Sip.Objects.Append.{Appended, append_leaf-Represents}
use sipster.Sip.Objects.Search.{search, head_of}
use sipster.Sip.Objects.Search.Found.{IsFound}
use sipster.Sip.Objects.Search.Freed.{search-append_destroy}
use sipster.Sip.Objects.Search.Loop.{search-IsFound}
use sipster.Sdp.Types.{SdpHeaderType, SdpHeader, attribute_content, plain_attribute, sendonly}
use sipster.Sdp.Objects.{
  SessionPointers, SdpCell, attribute_cell, session_cell, sdp_destroy, clone_header,
  sdp_header_destroy,
}
use sipster.Sdp.Objects.Freed.{Owns, sdp_destroy-Without, clone_header-sdp_header_destroy_faults}
use sipster.Dialog.Library.{Block, sipster_block, Libuv, Instance, init, deinit}
use sipster.Dialog.Library.Ending.{blocks, deinit_iff, init-deinit_faults}
use sipster.Tests.Messages.{via_header, branch}

-- A Via header at 0 with a parameter at 1, held by the leaf at 2 with its metadata at 3.
abbrev leaf_of_via : LeafCell
leaf_of_via = record { index = 0; header = some 0; metadata = some 3; next = none }

abbrev one_leaf : Heap Cell
one_leaf = record {
  next = 4;
  cell = λ (a : ℕ).
      if a == 0
      then some (header_cell via_header none (some 1))
      else if a == 1
      then some (parameter_cell branch none)
      else if a == 2
      then some (leaf_cell leaf_of_via)
      else if a == 3
      then some (metadata_cell 1)
      else none;
}

one_leaf-IsHeap : IsHeap one_leaf
one_leaf-IsHeap p above = ground arith

via-IsHeaderAt : IsHeaderAt one_leaf 0 (1 ∷ 0 ∷ [])
via-IsHeaderAt = record {
  header = via_header;
  parsed = none;
  first = some 1;
  ps = 1 ∷ [];
  entry = _;
  stands = refl;
  there = refl;
  params = Params.cons branch refl Params.nil;
  exact = refl;
  covered = λ a i. ground arith;
}

append_destroy-Without_example :
    (g : Heap Cell) × (append_destroy true one_leaf (some 2) ≡ ok g)
    × Without (3 ∷ 1 ∷ 0 ∷ 2 ∷ []) one_leaf g
append_destroy-Without_example =
    append_destroy-Without true one_leaf 2 3 leaf_of_via (1 ∷ 0 ∷ 2 ∷ []) one_leaf-IsHeap refl refl
      (Leaves.cons leaf_of_via (1 ∷ 0 ∷ []) [] refl refl via-IsHeaderAt refl Leaves.nil)
      (refl, (refl, (refl, (refl, tt)))) ((_, refl), ((_, refl), ((_, refl), ((_, refl), tt))))

abbrev one_chain : Chain
one_chain = record {
  leaves = record { index = 0; header = some via_header } ∷ [];
  count = 1;
  first_header = some 0;
}

one_leaf-Represents : Represents one_leaf (some 2) (some 2) one_chain
one_leaf-Represents = record {
  addresses = 2 ∷ [];
  metadata = 3;
  linked =
      Linked.cons leaf_of_via refl refl refl refl (via_header, none, some 1, refl, refl) Linked.nil;
  distinct = (refl, tt);
  is_last = refl;
  counted = refl;
}

append_leaf-Represents_example : Appended one_leaf (some 2) (some 2) (some 0) via_header one_chain
append_leaf-Represents_example =
    append_leaf-Represents one_leaf (some 2) (some 2) (some 0) _ via_header one_leaf-IsHeap
      one_leaf-Represents (via_header, none, some 1, refl, refl)

search-IsFound_example :
    (ends : Option (ℕ × ℕ)) × (g : Heap Cell) × (search one_leaf HeaderId.via (some 2)
      ≡ ok (head_of ends, g))
    × IsFound one_leaf g ends (collect HeaderId.via one_chain.leaves).headers
search-IsFound_example =
    search-IsFound one_leaf HeaderId.via (some 2) (some 2) one_chain one_leaf-IsHeap
      one_leaf-Represents

search-append_destroy_example :
    (o : Option ℕ) × (g : Heap Cell) × (k : Heap Cell) × (search one_leaf HeaderId.via (some 2)
      ≡ ok (o, g))
    × (append_destroy false g o ≡ ok k)
    × ((a : ℕ) → k.cell a ≡ one_leaf.cell a)
search-append_destroy_example =
    search-append_destroy one_leaf HeaderId.via (some 2) (some 2) one_chain one_leaf-IsHeap
      one_leaf-Represents

-- The object at 0 with its default leg at 1; libuv's loop stands below the allocator's addresses.
abbrev library : Instance
library = record { self = 0; loop = none; socket = none; legs = []; default_leg = some 1 }

abbrev library_memory : Heap Block
library_memory = record {
  next = 3;
  cell =
      λ (a : ℕ). if a == 2 then none else if a == 0 then some sipster_block else some sipster_block;
}

deinit_iff_example :
    ((g : Heap Block) × (deinit library_memory (some library) ≡ ok g)
      × Without (blocks library) library_memory g)
    ↔ (Distinct (blocks library) × All (IsLive library_memory) (blocks library))
deinit_iff_example = deinit_iff library_memory library

abbrev no_failure : Libuv
no_failure = record {
  default_loop = some 2;
  udp_init = pos 0;
  ip4_addr = pos 0;
  udp_bind = pos 0;
  recv_start = pos 0;
  async_init = pos 0;
}

init-deinit_faults_example :
    (init no_failure 2 library_memory none (some 1) ≡ fault bad_free)
    ⊎ ((status : ℤ) × (s : Instance) × (h : Heap Block) × (init no_failure 2 library_memory none
            (some 1)
          ≡ ok (status, some s, h))
        × (deinit h (some s) ≡ fault bad_free))
init-deinit_faults_example =
    init-deinit_faults no_failure 2 library_memory (some 1)
      (record { loop_address = 2; given = refl; foreign = (omega arith, refl) })

-- An attribute header at 0 with its attribute at 1, in the session at 2.
abbrev attribute_header : SdpHeader
attribute_header = record {
  header_type = SdpHeaderType.attribute;
  content = attribute_content (some (plain_attribute sendonly));
}

abbrev one_attribute : SessionPointers
one_attribute = record {
  version = none;
  origin = none;
  session_name = none;
  session_info = none;
  uri = none;
  email = none;
  phone = none;
  connection = none;
  timing = none;
  attributes = some 0 ∷ [];
  media = [];
}

abbrev described_memory : Heap SdpCell
described_memory = record {
  next = 3;
  cell = λ (a : ℕ).
      if a == 0
      then some (SdpCell.header_cell attribute_header (some 1))
      else if a == 1
      then some (attribute_cell (plain_attribute sendonly))
      else if a == 2
      then some (session_cell one_attribute)
      else none;
}

described_memory-IsHeap : IsHeap described_memory
described_memory-IsHeap p above = ground arith

sdp_destroy-Without_example :
    (g : Heap SdpCell) × (sdp_destroy described_memory (some 2) ≡ ok g)
    × Without (1 ∷ 2 ∷ []) described_memory g
sdp_destroy-Without_example =
    sdp_destroy-Without described_memory 2 one_attribute (1 ∷ []) refl
      (Owns.null (
        Owns.null (
          Owns.null (
            Owns.null (
              Owns.null (
                Owns.null (
                  Owns.null (
                    Owns.null (
                      Owns.null (
                        Owns.owning attribute_header (some 1) (plain_attribute sendonly) refl refl
                          refl Owns.nil))))))))))
      (refl, tt)

clone_header-sdp_header_destroy_faults_example :
    (copy : ℕ) × (h1 : Heap SdpCell) × (h2 : Heap SdpCell) × (clone_header described_memory (some 0)
      ≡ ok (some copy, h1))
    × (sdp_header_destroy h1 (some 0) ≡ ok h2)
    × (sdp_header_destroy h2 (some copy) ≡ fault bad_free)
clone_header-sdp_header_destroy_faults_example =
    clone_header-sdp_header_destroy_faults described_memory 0 1 attribute_header
      (plain_attribute sendonly) described_memory-IsHeap refl refl refl
