-- ===== src/Sdp/Objects.antt =====
-- The objects of a session description in memory: the destroy functions of src/sdp.cpp and
-- src/sdp_headers.cpp, `sipster_sdp_header_clone` with what the copy shares, and
-- `sipster_sdp_print_header`.
pub mod Freed
use sipster.Base.{
  ℕ, List, [], ◌∷◌, ◌++◌, Option, none, some, Exec, ok, fault, over_read, ◌>>=◌, Bytes,
}
use sipster.Memory.{Heap, allocate, load, release, free_pointer}
use sipster.Sdp.Types.{Attribute, SdpHeader}
use sipster.Sdp.Header.{SdpCodec, attr_codec, prototype_at}
use sipster.Sdp.Header.Print.{print_sdp_header}
use sipster.Sdp.Header.Clone.{sdp_header_clone}

-- The pointers of `struct _SipsterSdpMedia` and `struct _SipsterSdp`.
pub record MediaPointers : Type 0 where
  pub media_header : Option ℕ
  pub title : Option ℕ
  pub connection : Option ℕ
  pub attributes : List (Option ℕ)

pub record SessionPointers : Type 0 where
  pub version : Option ℕ
  pub origin : Option ℕ
  pub session_name : Option ℕ
  pub session_info : Option ℕ
  pub uri : Option ℕ
  pub email : Option ℕ
  pub phone : Option ℕ
  pub connection : Option ℕ
  pub timing : Option ℕ
  pub attributes : List (Option ℕ)
  pub media : List MediaPointers

-- A header, with the pointer of an attribute header to its attribute, an attribute, and a session.
pub data SdpCell : Type 0 where
  header_cell : SdpHeader → Option ℕ → SdpCell
  attribute_cell : Attribute → SdpCell
  session_cell : SessionPointers → SdpCell

as_sdp_header : SdpCell → Exec (SdpHeader × Option ℕ)
as_sdp_header (header_cell x attribute) = ok (x, attribute)
as_sdp_header _ = fault over_read

as_session : SdpCell → Exec SessionPointers
as_session (session_cell s) = ok s
as_session _ = fault over_read

-- A call through the `destroy` pointer of an entry: `sdp_attr_destroy`, or one of the functions that do
-- nothing.
destroy_sdp_content : SdpCodec → Heap SdpCell → Option ℕ → Exec (Heap SdpCell)
destroy_sdp_content attr_codec h attribute = free_pointer h attribute
destroy_sdp_content _ h attribute = ok h

-- `sipster_sdp_destroy_header`: the header itself is not freed.
unfoldable pub destroy_header : Heap SdpCell → Option ℕ → Exec (Heap SdpCell)
unfolding as_sdp_header destroy_sdp_content
destroy_header h none = ok h
destroy_header h (some p) = do
  c ← load h p
  (x, attribute) ← as_sdp_header c
  destroy_sdp_content (prototype_at x.header_type).codec h attribute

-- `sipster_sdp_header_destroy`.
unfoldable pub sdp_header_destroy : Heap SdpCell → Option ℕ → Exec (Heap SdpCell)
sdp_header_destroy h none = ok h
sdp_header_destroy h (some p) = do h' ← destroy_header h (some p); release h' p

-- The pointer of a copy: `sdp_attr_clone` copies it.
shared_by : SdpCodec → Option ℕ → Option ℕ
shared_by attr_codec attribute = attribute
shared_by _ attribute = none

-- `sipster_sdp_header_clone` of a header in memory.
unfoldable pub clone_header : Heap SdpCell → Option ℕ → Exec (Option ℕ × Heap SdpCell)
unfolding as_sdp_header shared_by
clone_header h none = ok (none, h)
clone_header h (some p) = do
  c ← load h p
  (x, attribute) ← as_sdp_header c
  let (copy, h') =
      allocate h
        (header_cell (sdp_header_clone x) (shared_by (prototype_at x.header_type).codec attribute))
  ok (some copy, h')

-- `sipster_sdp_print_header`: the header is destroyed by its print.
unfoldable pub print_and_destroy : Heap SdpCell → ℕ → Exec (Option Bytes × Heap SdpCell)
unfolding as_sdp_header
print_and_destroy h p = do
  c ← load h p
  (x, attribute) ← as_sdp_header c
  line ← print_sdp_header x
  h' ← sdp_header_destroy h (some p)
  ok (line, h')

-- One `sipster_sdp_destroy_header` after the other.
unfoldable pub destroy_headers : Heap SdpCell → List (Option ℕ) → Exec (Heap SdpCell)
destroy_headers h [] = ok h
destroy_headers h (p ∷ ps) = do h' ← destroy_header h p; destroy_headers h' ps

abbrev pub media_pointers : List MediaPointers → List (Option ℕ)
media_pointers [] = []
media_pointers (m ∷ ms) =
    m.media_header ∷ m.title ∷ m.connection ∷ (m.attributes ++ media_pointers ms)

-- The headers in the order in which they are destroyed.
abbrev pub header_pointers : SessionPointers → List (Option ℕ)
header_pointers s =
    s.version
    ∷ s.origin
    ∷ s.session_name
    ∷ s.session_info
    ∷ s.uri
    ∷ s.email
    ∷ s.phone
    ∷ s.connection
    ∷ s.timing
    ∷ (s.attributes ++ media_pointers s.media)

-- `sipster_sdp_destroy`.
unfoldable pub sdp_destroy : Heap SdpCell → Option ℕ → Exec (Heap SdpCell)
unfolding as_session
sdp_destroy h none = ok h
sdp_destroy h (some p) = do
  c ← load h p
  s ← as_session c
  h' ← destroy_headers h (header_pointers s)
  release h' p
