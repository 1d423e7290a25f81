-- ===== src/Sip/Objects/Leaves.antt =====
-- What `sipster_sip_header_append_destroy` frees of a header list.
use sipster.Base.{
  Bool-cases, inl, inr, ℕ, zero, suc, ◌<◌, Bool, true, false, ◌||◌, List, [], ◌∷◌, ◌++◌, Option,
  none, some, ◌≡◌, refl, ap, ◌∙◌, arith, ok, All, contains, ◌==◌, length, length-append,
}
use sipster.Memory.{Heap, update, release_all, free_pointer}
use sipster.Memory.Freeing.{
  load-live, IsLive, IsHeap, Without, Distinct, release-live, release_all-Without,
  release_all-append, length-live,
}
use sipster.Sip.Objects.{
  Cell, LeafCell, leaf_cell, as_leaf, destroy_header_if, leaves_destroy, append_destroy,
  header_destroy,
}
use sipster.Sip.Objects.Headers.{
  footprint, IsHeaderAt, Params-same, header_destroy-frees, Distinct-behind, Distinct-front,
  All-front,
}

-- What is freed for the header of a leaf: nothing, if the headers are kept or the pointer is NULL.
abbrev pub Owned : Heap Cell → Bool → Option ℕ → List ℕ → Type 0
Owned h false header frees = frees ≡ []
Owned h true none frees = frees ≡ []
Owned h true (some q) frees = IsHeaderAt h q frees

-- From that pointer the leaves are linked, and these are the objects to free, leaf by leaf.
pub data Leaves (h : Heap Cell) (b : Bool) : Option ℕ → List ℕ → Type 0 where
  nil : Leaves h b none []
  cons :
      {p : ℕ} {n : Option ℕ} {frees : List ℕ} (l : LeafCell) (own rest : List ℕ)
      → h.cell p ≡ some (leaf_cell l)
      → l.next ≡ n
      → Owned h b l.header own
      → frees ≡ own ++ p ∷ rest
      → Leaves h b n rest
      → Leaves h b (some p) frees

pub contains-append :
    (ps qs : List ℕ) (a : ℕ) → contains (ps ++ qs) a ≡ (contains ps a || contains qs a)
contains-append [] qs a = refl
contains-append (p ∷ ps) qs a = ground (arith, contains-append ps qs a)

contains-last : (ps : List ℕ) (a : ℕ) → contains (ps ++ a ∷ []) a ≡ true
contains-last ps a = ground (arith, contains-append ps (a ∷ []) a)

Owned-same :
    (h g : Heap Cell) (b : Bool) (o : Option ℕ) (frees : List ℕ)
    → Owned h b o frees
    → ((a : ℕ) → contains frees a ≡ true → g.cell a ≡ h.cell a)
    → Owned g b o frees
Owned-same h g false o frees k same = k
Owned-same h g true none frees k same = k
Owned-same h g true (some q) frees k same = record {
  header = k.header;
  parsed = k.parsed;
  first = k.first;
  ps = k.ps;
  entry = k.entry;
  stands = same q own ∙ k.stands;
  there = k.there;
  params = Params-same g k.params (λ a i. same a (k.covered a i));
  exact = k.exact;
  covered = k.covered;
}
  where
    own : contains frees q ≡ true
    own = rw k.exact (contains-last (footprint k.entry.codec k.parsed k.ps) q)

Leaves-same :
    {h : Heap Cell} (g : Heap Cell) {b : Bool} {o : Option ℕ} {frees : List ℕ}
    → Leaves h b o frees
    → ((a : ℕ) → contains frees a ≡ true → g.cell a ≡ h.cell a)
    → Leaves g b o frees
Leaves-same g nil same = nil
Leaves-same {h} g {b} (cons {p} l own rest e m k f t) same =
    let inside : (a : ℕ) → contains (own ++ p ∷ rest) a ≡ true → g.cell a ≡ h.cell a =
      λ a i. same a (rw f i) in
    let at_own : (a : ℕ) → contains own a ≡ true → g.cell a ≡ h.cell a =
      λ a i. inside a (ground (arith, contains-append own (p ∷ rest) a)) in
    let at_rest : (a : ℕ) → contains rest a ≡ true → g.cell a ≡ h.cell a =
      λ a i. inside a (ground (arith, contains-append own (p ∷ rest) a)) in
    let at_p : g.cell p ≡ h.cell p = inside p (ground (arith, contains-append own (p ∷ rest) p)) in
    cons l own rest (at_p ∙ e) m (Owned-same h g b l.header own k at_own) f
      (Leaves-same g t at_rest)

Distinct-apart :
    (ps qs : List ℕ) (a : ℕ) → Distinct (ps ++ qs) → contains qs a ≡ true → contains ps a ≡ false
Distinct-apart [] qs a d i = refl
Distinct-apart (p ∷ ps) qs a d i =
    let rest = Distinct-apart ps qs a d.1 i in
    elim (Bool-cases (a == p)) [
      | inl same ↦
          let same' : a ≡ p = ground (arith, same) in
          let here : contains (ps ++ qs) a ≡ false = rw (← same') at d.0 in
          let both : contains (ps ++ qs) a ≡ (contains ps a || contains qs a) =
            contains-append ps qs a in
          absurd (ground (arith, here, both, i, rest))
      | inr apart ↦ ground (arith, apart, rest)
    ]

All-IsLive-same :
    (h g : Heap Cell) (ps : List ℕ)
    → All (IsLive h) ps
    → ((a : ℕ) → contains ps a ≡ true → g.cell a ≡ h.cell a)
    → All (IsLive g) ps
All-IsLive-same h g [] w same = tt
All-IsLive-same h g (p ∷ ps) w same = (
  (w.0.0, same p (ground arith) ∙ w.0.1),
  All-IsLive-same h g ps w.1 (λ a i. same a (ground (arith, i))),
)

All-behind : (h : Heap Cell) (ps qs : List ℕ) → All (IsLive h) (ps ++ qs) → All (IsLive h) qs
All-behind h [] qs w = w
All-behind h (p ∷ ps) qs w = All-behind h ps qs w.1

destroy_header_if-frees :
    (b : Bool) (h : Heap Cell) (o : Option ℕ) (own : List ℕ)
    → IsHeap h
    → Owned h b o own
    → Distinct own
    → All (IsLive h) own
    → destroy_header_if b h o ≡ release_all own h
unfolding destroy_header_if header_destroy release_all
destroy_header_if-frees false h o own v k d w = rw k refl
destroy_header_if-frees true h none own v k d w = rw k refl
destroy_header_if-frees true h (some q) own v k d w = header_destroy-frees h q own v k d w

IsHeap-Without :
    (ps : List ℕ) (h g : Heap Cell) → IsHeap h → g.next ≡ h.next → Without ps h g → IsHeap g
IsHeap-Without ps h g v n out p above = out p ∙ ground (arith, v p (omega (arith, n, above)))

IsHeap-update : (h : Heap Cell) (p : ℕ) → IsHeap h → IsHeap (update h p none)
IsHeap-update h p v a above = ground (arith, v a above)

leaves_destroy-frees :
    (fuel : ℕ) (b : Bool) (h : Heap Cell) {o : Option ℕ} {frees : List ℕ}
    → IsHeap h
    → Leaves h b o frees
    → Distinct frees
    → All (IsLive h) frees
    → length frees < fuel
    → leaves_destroy fuel b h o ≡ release_all frees h
unfolding leaves_destroy as_leaf release_all
leaves_destroy-frees zero b h v t d w few = absurd (omega (arith, few))
leaves_destroy-frees (suc fuel) b h v nil d w few = refl
leaves_destroy-frees (suc fuel) b h v (cons {p} {n} {frees} l own rest e m k f t) d w few =
    let d' : Distinct (own ++ p ∷ rest) = rw f at d in
    let w' : All (IsLive h) (own ++ p ∷ rest) = rw f at w in
    let front = Distinct-front own (p ∷ rest) d' in
    let behind = Distinct-behind own (p ∷ rest) d' in
    let live = All-front h own (p ∷ rest) w' in
    let (h1, freed, same_next, out) = release_all-Without own h front live in
    let p_out = Distinct-apart own (p ∷ rest) p d' (ground arith) in
    let stands : h1.cell p ≡ some (leaf_cell l) = out p ∙ rw p_out e in
    let h2 = update h1 p none in
    let agree : (a : ℕ) → contains rest a ≡ true → h2.cell a ≡ h.cell a = λ a i.
      ground (arith, i, behind.0, out a, Distinct-apart own (p ∷ rest) a d' (ground (arith, i))) in
    let heap2 = IsHeap-update h1 p (IsHeap-Without own h h1 v same_next out) in
    let fewer : length rest < fuel =
      omega (arith, few, ap length f, length-append own (p ∷ rest)) in
    let tail =
      leaves_destroy-frees fuel b h2 heap2 (Leaves-same h2 t agree) behind.1
        (All-IsLive-same h h2 rest (All-behind h own (p ∷ rest) w').1 agree) fewer in
    rw
      (
        load-live h p (leaf_cell l) e,
        destroy_header_if-frees b h l.header own v k front live,
        freed,
        release-live h1 p (leaf_cell l, stands),
        m,
        f,
        release_all-append own (p ∷ rest) h,
        freed,
        release-live h1 p (leaf_cell l, stands),
      )
      tail

-- The destruction of a header list, whose leaves, metadata and, where these go too, headers are
-- distinct and allocated, comes through: it frees the metadata once, each leaf, and of each header what
-- its own destruction frees, and nothing else.
pub append_destroy-Without :
    (b : Bool) (h : Heap Cell) (leaf metadata : ℕ) (first : LeafCell) (frees : List ℕ)
    → IsHeap h
    → h.cell leaf ≡ some (leaf_cell first)
    → first.metadata ≡ some metadata
    → Leaves h b (some leaf) frees
    → Distinct (metadata ∷ frees)
    → All (IsLive h) (metadata ∷ frees)
    → (g : Heap Cell) × (append_destroy b h (some leaf) ≡ ok g) × Without (metadata ∷ frees) h g
unfolding append_destroy as_leaf free_pointer release_all
append_destroy-Without b h leaf metadata first frees v e m t d w =
    let (g, freed, n, out) = release_all-Without (metadata ∷ frees) h d w in
    let h' = update h metadata none in
    let agree : (a : ℕ) → contains frees a ≡ true → h'.cell a ≡ h.cell a =
      λ a i. ground (arith, d.0, i) in
    let few : length frees < suc h.next = omega (arith, length-live h frees v d.1 w.1) in
    let loop =
      leaves_destroy-frees (suc h.next) b h' (IsHeap-update h metadata v) (Leaves-same h' t agree)
        d.1 (All-IsLive-same h h' frees w.1 agree) few in
    let gone = release-live h metadata w.0 in
    let freed' : release_all frees h' ≡ ok g = rw gone at freed in
    (g, rw (load-live h leaf (leaf_cell first) e, m, gone, loop) freed', out)
