-- ===== src/Sip/Objects/Headers.antt =====
-- What `sipster_sip_header_destroy` frees of a header and its parameters.
use sipster.Base.{
  ℕ, zero, suc, ◌<◌, true, false, List, [], ◌∷◌, ◌++◌, Option, none, some, ◌≡◌, refl, sym, ◌∙◌,
  arith, ok, bind-cong, All, contains, length, get_elem?,
}
use sipster.Memory.{Heap, update, release_all, free_pointer}
use sipster.Memory.Freeing.{
  load-live, IsLive, IsHeap, Without, Distinct, release-live, release_all-Without,
  release_all-append, release_all-one, pointer_list, length-live,
}
use sipster.Sip.Enums.{header_index}
use sipster.Sip.Parameter.{Parameter}
use sipster.Sip.Header.{
  Header, Codec, addr_codec, via_codec, ct_codec, HeaderMap, header_prototypes,
}
use sipster.Sip.Objects.{
  Cell, header_cell, parameter_cell, as_parameter, as_header, param_destroy, destroy_content,
  header_destroy,
}

-- From that pointer, the parameters stand at these addresses.
pub data Params (h : Heap Cell) : Option ℕ → List ℕ → Type 0 where
  nil : Params h none []
  cons :
      {p : ℕ} {n : Option ℕ} {ps : List ℕ} (x : Parameter)
      → h.cell p ≡ some (parameter_cell x n)
      → Params h n ps
      → Params h (some p) (p ∷ ps)

pub Params-same :
    {h : Heap Cell} (g : Heap Cell) {o : Option ℕ} {ps : List ℕ}
    → Params h o ps
    → ((a : ℕ) → contains ps a ≡ true → g.cell a ≡ h.cell a)
    → Params g o ps
Params-same g nil same = nil
Params-same g (cons {p} x e t) same =
    cons x (same p (ground arith) ∙ e) (Params-same g t λ a i. same a (ground arith))

Params-IsLive : {h : Heap Cell} {o : Option ℕ} {ps : List ℕ} → Params h o ps → All (IsLive h) ps
Params-IsLive nil = tt
Params-IsLive (cons {n} x e t) = ((parameter_cell x n, e), Params-IsLive t)

param_destroy-frees :
    (fuel : ℕ) (h : Heap Cell) {o : Option ℕ} {ps : List ℕ}
    → Params h o ps
    → Distinct ps
    → length ps < fuel
    → param_destroy fuel h o ≡ release_all ps h
unfolding param_destroy as_parameter release_all
param_destroy-frees zero h t d f = absurd (omega (arith, f))
param_destroy-frees (suc fuel) h nil d f = refl
param_destroy-frees (suc fuel) h (cons {p} {n} {ps} x e t) d f =
    let rest = Params-same (update h p none) t (λ a i. ground (arith, d.0)) in
    rw (load-live h p (parameter_cell x n) e, release-live h p (parameter_cell x n, e))
      (param_destroy-frees fuel (update h p none) rest d.1 (omega (arith, f)))

-- What the `destroy` function of an entry frees: the parsed address of an address header only, and
-- the parameters.
abbrev pub footprint : Codec → Option ℕ → List ℕ → List ℕ
footprint addr_codec parsed ps = pointer_list parsed ++ ps
footprint via_codec parsed ps = ps
footprint ct_codec parsed ps = ps
footprint _ parsed ps = []

-- A header at an address, of which these objects are freed.
pub record IsHeaderAt (h : Heap Cell) (p : ℕ) (frees : List ℕ) : Type 0 where
  pub header : Header
  pub parsed : Option ℕ
  pub first : Option ℕ
  pub ps : List ℕ
  pub entry : HeaderMap
  pub stands : h.cell p ≡ some (header_cell header parsed first)
  pub there : get_elem? header_prototypes (header_index header.header_id) ≡ some entry
  pub params : Params h first ps
  pub exact : frees ≡ footprint entry.codec parsed ps ++ p ∷ []
  pub covered : (a : ℕ) → contains ps a ≡ true → contains frees a ≡ true

pub Distinct-behind : (ps qs : List ℕ) → Distinct (ps ++ qs) → Distinct qs
Distinct-behind [] qs d = d
Distinct-behind (p ∷ ps) qs d = Distinct-behind ps qs d.1

pub Distinct-front : (ps qs : List ℕ) → Distinct (ps ++ qs) → Distinct ps
Distinct-front [] qs d = tt
Distinct-front (p ∷ ps) qs d = (not_in ps d.0, Distinct-front ps qs d.1)
  where
    not_in : (rs : List ℕ) → contains (rs ++ qs) p ≡ false → contains rs p ≡ false
    not_in [] e = refl
    not_in (r ∷ rs) e = ground (arith, not_in rs)

Params-frees :
    (h : Heap Cell) {o : Option ℕ} {ps : List ℕ}
    → IsHeap h
    → Params h o ps
    → Distinct ps
    → param_destroy (suc h.next) h o ≡ release_all ps h
Params-frees h {ps = ps} v t d =
    param_destroy-frees (suc h.next) h t d (omega (arith, length-live h ps v d (Params-IsLive t)))

destroy_content-frees :
    (k : Codec) (h : Heap Cell) (parsed first : Option ℕ) (ps : List ℕ)
    → IsHeap h
    → Params h first ps
    → Distinct (footprint k parsed ps)
    → All (IsLive h) (footprint k parsed ps)
    → destroy_content k h parsed first ≡ release_all (footprint k parsed ps) h
unfolding destroy_content release_all free_pointer
destroy_content-frees addr_codec h none first ps v t d w = Params-frees h v t d
destroy_content-frees addr_codec h (some q) first ps v t d w =
    let g = update h q none in
    let t' = Params-same g t (λ a i. ground (arith, d.0)) in
    rw (release-live h q w.0) (
      param_destroy-frees (suc h.next) g t' d.1
        (omega (arith, length-live h ps v d.1 (Params-IsLive t))))
destroy_content-frees via_codec h parsed first ps v t d w = Params-frees h v t d
destroy_content-frees ct_codec h parsed first ps v t d w = Params-frees h v t d
destroy_content-frees _ h parsed first ps v t d w = refl

pub All-front : (h : Heap Cell) (ps qs : List ℕ) → All (IsLive h) (ps ++ qs) → All (IsLive h) ps
All-front h [] qs w = tt
All-front h (p ∷ ps) qs w = (w.0, All-front h ps qs w.1)

pub header_destroy-frees :
    (h : Heap Cell) (p : ℕ) (frees : List ℕ)
    → IsHeap h
    → IsHeaderAt h p frees
    → Distinct frees
    → All (IsLive h) frees
    → header_destroy h (some p) ≡ release_all frees h
unfolding header_destroy as_header
header_destroy-frees h p frees v k d w =
    let own = footprint k.entry.codec k.parsed k.ps in
    let d' : Distinct (own ++ p ∷ []) = rw k.exact at d in
    let w' : All (IsLive h) (own ++ p ∷ []) = rw k.exact at w in
    let content =
      destroy_content-frees k.entry.codec h k.parsed k.first k.ps v k.params
        (Distinct-front own (p ∷ []) d') (All-front h own (p ∷ []) w') in
    rw
      (
        load-live h p (header_cell k.header k.parsed k.first) k.stands,
        k.there,
        content,
        k.exact,
        release_all-append own (p ∷ []) h,
      )
      (bind-cong (release_all own h) _ _ (λ g. sym (release_all-one p g)))

-- The destruction of a header whose objects are distinct and allocated comes through, and frees
-- exactly the header, its parameters, and of an address header the parsed address.
pub header_destroy-Without :
    (h : Heap Cell) (p : ℕ) (frees : List ℕ)
    → IsHeap h
    → IsHeaderAt h p frees
    → Distinct frees
    → All (IsLive h) frees
    → (g : Heap Cell) × (header_destroy h (some p) ≡ ok g) × Without frees h g
header_destroy-Without h p frees v k d w =
    let (g, e, n, out) = release_all-Without frees h d w in
    (g, header_destroy-frees h p frees v k d w ∙ e, out)
