-- ===== src/Sdp/Objects/Freed.antt =====
-- What the destruction of a session description frees, and a header that shares its attribute with its
-- copy.
use sipster.Base.{
  ℕ, false, List, [], ◌∷◌, ◌++◌, Option, none, some, ◌≡◌, refl, sym, ap, ◌∙◌, arith, ok, fault,
  bad_free, bind-cong, All, contains,
}
use sipster.Memory.{Heap, update, allocate, release_all, free_pointer}
use sipster.Memory.Freeing.{
  Distinct-append, load-live, IsLive, IsHeap, IsLive-below, Without, Distinct, release-live,
  release-none, release_all-Without, release_all-append, release_all-one,
}
use sipster.Sdp.Types.{Attribute, SdpHeader}
use sipster.Sdp.Header.{SdpCodec, attr_codec, prototype_at}
use sipster.Sdp.Header.Clone.{sdp_header_clone}
use sipster.Sdp.Objects.{
  SessionPointers, SdpCell, header_cell, attribute_cell, session_cell, as_sdp_header, as_session,
  destroy_sdp_content, destroy_header, sdp_header_destroy, shared_by, clone_header, destroy_headers,
  header_pointers, sdp_destroy,
}

-- The attribute that the destruction of a header frees.
abbrev freed_by : SdpCodec → Option ℕ → Option ℕ
freed_by attr_codec attribute = attribute
freed_by _ attribute = none

-- The pointers lead to headers, and these are their attributes, in order.
pub data Owns (h : Heap SdpCell) : List (Option ℕ) → List ℕ → Type 0 where
  nil : Owns h [] []
  null : {os : List (Option ℕ)} {fs : List ℕ} → Owns h os fs → Owns h (none ∷ os) fs
  plain :
      {p : ℕ} {os : List (Option ℕ)} {fs : List ℕ} (x : SdpHeader) (a : Option ℕ)
      → h.cell p ≡ some (header_cell x a)
      → freed_by (prototype_at x.header_type).codec a ≡ none
      → Owns h os fs
      → Owns h (some p ∷ os) fs
  owning :
      {p q : ℕ} {os : List (Option ℕ)} {fs : List ℕ} (x : SdpHeader) (a : Option ℕ) (t : Attribute)
      → h.cell p ≡ some (header_cell x a)
      → freed_by (prototype_at x.header_type).codec a ≡ some q
      → h.cell q ≡ some (attribute_cell t)
      → Owns h os fs
      → Owns h (some p ∷ os) (q ∷ fs)

Owns-update :
    {h : Heap SdpCell} {os : List (Option ℕ)} {fs : List ℕ} (q : ℕ) (t : Attribute)
    → h.cell q ≡ some (attribute_cell t)
    → contains fs q ≡ false
    → Owns h os fs
    → Owns (update h q none) os fs
Owns-update q t e out nil = nil
Owns-update q t e out (null w) = null (Owns-update q t e out w)
Owns-update q t e out (plain x a s f w) =
    plain x a (ground (arith, e, s)) f (Owns-update q t e out w)
Owns-update q t e out (owning x a u s f at_own w) =
    owning x a u (ground (arith, e, s)) f (ground (arith, out, at_own))
      (Owns-update q t e (ground (arith, out)) w)

Owns-IsLive :
    {h : Heap SdpCell} {os : List (Option ℕ)} {fs : List ℕ} → Owns h os fs → All (IsLive h) fs
Owns-IsLive nil = tt
Owns-IsLive (null w) = Owns-IsLive w
Owns-IsLive (plain x a s f w) = Owns-IsLive w
Owns-IsLive (owning x a u s f at_own w) = ((attribute_cell u, at_own), Owns-IsLive w)

destroy_sdp_content-free_pointer :
    (k : SdpCodec) (h : Heap SdpCell) (a : Option ℕ)
    → destroy_sdp_content k h a ≡ free_pointer h (freed_by k a)
unfolding destroy_sdp_content free_pointer
destroy_sdp_content-free_pointer attr_codec h a = refl
destroy_sdp_content-free_pointer _ h a = refl

destroy_header-free_pointer :
    (h : Heap SdpCell) (p : ℕ) (x : SdpHeader) (a : Option ℕ)
    → h.cell p ≡ some (header_cell x a)
    → destroy_header h (some p) ≡ free_pointer h (freed_by (prototype_at x.header_type).codec a)
unfolding destroy_header as_sdp_header
destroy_header-free_pointer h p x a e =
    rw (load-live h p (header_cell x a) e)
      (destroy_sdp_content-free_pointer (prototype_at x.header_type).codec h a)

destroy_headers-frees :
    (os : List (Option ℕ)) (h : Heap SdpCell) {fs : List ℕ}
    → Owns h os fs
    → Distinct fs
    → destroy_headers h os ≡ release_all fs h
unfolding destroy_headers release_all free_pointer destroy_header
destroy_headers-frees [] h nil d = refl
destroy_headers-frees (none ∷ os) h (null w) d = destroy_headers-frees os h w d
destroy_headers-frees (some p ∷ os) h (plain x a s f w) d =
    let step = destroy_header-free_pointer h p x a s in
    rw (step, f) (destroy_headers-frees os h w d)
destroy_headers-frees (some p ∷ os) h (owning {q} x a t s f at_own w) d =
    let step = destroy_header-free_pointer h p x a s in
    rw (step, f, release-live h q (attribute_cell t, at_own))
      (destroy_headers-frees os (update h q none) (Owns-update q t at_own d.0 w) d.1)

Owns-absent :
    {h : Heap SdpCell} {os : List (Option ℕ)} {fs : List ℕ} (p : ℕ) (s : SessionPointers)
    → h.cell p ≡ some (session_cell s)
    → Owns h os fs
    → contains fs p ≡ false
Owns-absent p s e nil = refl
Owns-absent p s e (null w) = Owns-absent p s e w
Owns-absent p s e (plain x a u f w) = Owns-absent p s e w
Owns-absent p s e (owning x a t u f at_own w) = ground (arith, e, at_own, Owns-absent p s e w)

All-IsLive-append :
    (h : Heap SdpCell) (ps : List ℕ) (p : ℕ)
    → All (IsLive h) ps
    → IsLive h p
    → All (IsLive h) (ps ++ p ∷ [])
All-IsLive-append h [] p w u = (u, tt)
All-IsLive-append h (q ∷ ps) p w u = (w.0, All-IsLive-append h ps p w.1 u)

-- The destruction of a session description whose attribute headers have an attribute each of their own
-- comes through, and frees exactly these attributes and the session: its headers stay allocated.
pub sdp_destroy-Without :
    (h : Heap SdpCell) (p : ℕ) (s : SessionPointers) (fs : List ℕ)
    → h.cell p ≡ some (session_cell s)
    → Owns h (header_pointers s) fs
    → Distinct fs
    → (g : Heap SdpCell) × (sdp_destroy h (some p) ≡ ok g) × Without (fs ++ p ∷ []) h g
unfolding sdp_destroy as_session
sdp_destroy-Without h p s fs e w d =
    let all = Distinct-append fs p d (Owns-absent p s e w) in
    let live = All-IsLive-append h fs p (Owns-IsLive w) (session_cell s, e) in
    let (g, freed, n, out) = release_all-Without (fs ++ p ∷ []) h all live in
    let split =
      bind-cong (release_all fs h) _ _ (λ h'. sym (release_all-one p h'))
      ∙ sym (release_all-append fs (p ∷ []) h) in
    (
      g,
      rw (load-live h p (session_cell s) e, destroy_headers-frees (header_pointers s) h w d)
          (split ∙ freed),
      out,
    )

clone_header-shared :
    (h : Heap SdpCell) (p q : ℕ) (x : SdpHeader)
    → (prototype_at x.header_type).codec ≡ attr_codec
    → h.cell p ≡ some (header_cell x (some q))
    → clone_header h (some p)
      ≡ ok (some h.next, (allocate h (header_cell (sdp_header_clone x) (some q))).1)
unfolding clone_header as_sdp_header allocate
clone_header-shared h p q x codec e = rw (load-live h p (header_cell x (some q)) e) (
    ap (λ (o : Option ℕ). ok (some h.next, (allocate h (header_cell (sdp_header_clone x) o)).1))
      (shared (prototype_at x.header_type).codec codec))
  where
    shared : (k : SdpCodec) → k ≡ attr_codec → shared_by k (some q) ≡ some q
    shared k same = rw (same, shared_by) refl

sdp_header_destroy-attribute :
    (h : Heap SdpCell) (p q : ℕ) (x : SdpHeader) (t : Attribute)
    → (prototype_at x.header_type).codec ≡ attr_codec
    → h.cell p ≡ some (header_cell x (some q))
    → h.cell q ≡ some (attribute_cell t)
    → sdp_header_destroy h (some p) ≡ ok (update (update h q none) p none)
unfolding sdp_header_destroy free_pointer
sdp_header_destroy-attribute h p q x t codec e at_own =
    let left : (update h q none).cell p ≡ some (header_cell x (some q)) =
      ground (arith, e, at_own) in
    rw
      (
        destroy_header-free_pointer h p x (some q) e,
        codec,
        release-live h q (attribute_cell t, at_own),
        release-live (update h q none) p (header_cell x (some q), left),
      )
      refl

sdp_header_destroy-gone :
    (h : Heap SdpCell) (p q : ℕ) (x : SdpHeader)
    → (prototype_at x.header_type).codec ≡ attr_codec
    → h.cell p ≡ some (header_cell x (some q))
    → h.cell q ≡ none
    → sdp_header_destroy h (some p) ≡ fault bad_free
unfolding sdp_header_destroy free_pointer
sdp_header_destroy-gone h p q x codec e gone =
    rw (destroy_header-free_pointer h p x (some q) e, codec, release-none h q gone) refl

-- The copy of an attribute header points at the attribute of the header: once the header is destroyed,
-- the destruction of the copy frees that attribute once more.
pub clone_header-sdp_header_destroy_faults :
    (h : Heap SdpCell) (p q : ℕ) (x : SdpHeader) (t : Attribute)
    → IsHeap h
    → (prototype_at x.header_type).codec ≡ attr_codec
    → h.cell p ≡ some (header_cell x (some q))
    → h.cell q ≡ some (attribute_cell t)
    → (copy : ℕ) × (h1 : Heap SdpCell) × (h2 : Heap SdpCell) × (clone_header h (some p)
        ≡ ok (some copy, h1))
      × (sdp_header_destroy h1 (some p) ≡ ok h2)
      × (sdp_header_destroy h2 (some copy) ≡ fault bad_free)
unfolding allocate sdp_header_clone
clone_header-sdp_header_destroy_faults h p q x t v codec e at_own =
    let y = sdp_header_clone x in
    let h1 = (allocate h (header_cell y (some q))).1 in
    let p_below = IsLive-below h p v (header_cell x (some q), e) in
    let q_below = IsLive-below h q v (attribute_cell t, at_own) in
    let there : h1.cell p ≡ some (header_cell x (some q)) = ground (arith, e, p_below) in
    let own : h1.cell q ≡ some (attribute_cell t) = ground (arith, at_own, q_below) in
    let h2 = update (update h1 q none) p none in
    let copied : h2.cell h.next ≡ some (header_cell y (some q)) =
      ground (arith, p_below, q_below) in
    (
      h.next,
      h1,
      h2,
      clone_header-shared h p q x codec e,
      sdp_header_destroy-attribute h1 p q x t codec there own,
      sdp_header_destroy-gone h2 h.next q y codec copied (ground arith),
    )
