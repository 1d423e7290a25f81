-- ===== src/Memory/Freeing.antt =====
-- What a sequence of `free` does to the memory.
use sipster.Base.{
  bind-cong, bind_assoc, bind-ok, ltb, ltb→lt, length, zero, suc, sym, ap, ◌++◌, ◌>>=◌, ℕ, ◌≤◌, ◌<◌,
  false, List, [], ◌∷◌, Option, none, some, ◌≡◌, inl, inr, refl, ◌∙◌, arith, ok, fault, bad_free,
  ◌==◌, if◌then◌else◌, All, contains, Option-cases, Bool-cases,
}
use sipster.Memory.{store, load, free_pointer, Heap, update, release, release_all, found_or}

module _ {A : Type 0} where
  -- There is an object at the address.
  abbrev pub IsLive : Heap A → ℕ → Type 0
  IsLive h p = (c : A) × (h.cell p ≡ some c)

  -- No object stands where none was allocated yet.
  abbrev pub IsHeap : Heap A → Type 0
  IsHeap h = (p : ℕ) → h.next ≤ p → h.cell p ≡ none

  -- An address below those of the allocator at which it has no object: a static object, or a freed one.
  abbrev pub IsForeign : Heap A → ℕ → Type 0
  IsForeign h p = (p < h.next) × (h.cell p ≡ none)

  -- `g` is `h` without the objects at these addresses.
  abbrev pub Without : List ℕ → Heap A → Heap A → Type 0
  Without ps h g = (a : ℕ) → g.cell a ≡ (if contains ps a then none else h.cell a)

  pub release-live : (h : Heap A) (p : ℕ) → IsLive h p → release h p ≡ ok (update h p none)
  unfolding release found_or
  release-live h p (c, e) = rw e refl

  pub load-live : (h : Heap A) (p : ℕ) (c : A) → h.cell p ≡ some c → load h p ≡ ok c
  unfolding load found_or
  load-live h p c e = rw e refl

  pub store-live :
      (h : Heap A) (p : ℕ) (c d : A) → h.cell p ≡ some d → store h p c ≡ ok (update h p (some c))
  unfolding store
  store-live h p c d e = rw (load-live h p d e) refl

  pub release-none : (h : Heap A) (p : ℕ) → h.cell p ≡ none → release h p ≡ fault bad_free
  unfolding release found_or
  release-none h p e = rw e refl

abbrev pub Distinct : List ℕ → Type 0
Distinct [] = Unit
Distinct (p ∷ ps) = (contains ps p ≡ false) × Distinct ps

pub Distinct-append :
    (bs : List ℕ) (a : ℕ) → Distinct bs → contains bs a ≡ false → Distinct (bs ++ a ∷ [])
Distinct-append [] a d e = (refl, tt)
Distinct-append (b ∷ bs) a d e =
    (without bs d.0 (ground arith), Distinct-append bs a d.1 (ground arith))
  where
    without :
        (cs : List ℕ) → contains cs b ≡ false → (b == a) ≡ false → contains (cs ++ a ∷ []) b ≡ false
    without [] u w = ground arith
    without (c ∷ cs) u w = ground (arith, without cs)

module _ {A : Type 0} where
  All-IsLive-update :
      (h : Heap A) (p : ℕ) (ps : List ℕ)
      → contains ps p ≡ false
      → All (IsLive h) ps
      → All (IsLive (update h p none)) ps
  All-IsLive-update h p [] out w = tt
  All-IsLive-update h p (q ∷ ps) out w =
      ((w.0.0, ground (arith, w.0.1)), All-IsLive-update h p ps (ground arith) w.1)

  -- Freeing distinct objects succeeds, and takes exactly these away.
  pub release_all-Without :
      (ps : List ℕ) (h : Heap A)
      → Distinct ps
      → All (IsLive h) ps
      → (g : Heap A) × (release_all ps h ≡ ok g) × (g.next ≡ h.next) × Without ps h g
  unfolding release_all
  release_all-Without [] h d w = (h, refl, refl, λ a. refl)
  release_all-Without (p ∷ ps) h d w =
      let (g, e, n, v) =
        release_all-Without ps (update h p none) d.1 (All-IsLive-update h p ps d.0 w.1) in
      (g, rw (release-live h p w.0) e, n, λ a. v a ∙ ground arith)

  All-IsLive-back :
      (h : Heap A) (p : ℕ) (ps : List ℕ)
      → All (IsLive (update h p none)) ps
      → (contains ps p ≡ false) × All (IsLive h) ps
  All-IsLive-back h p [] w = (refl, tt)
  All-IsLive-back h p (q ∷ ps) w =
      let (out, rest) = All-IsLive-back h p ps w.1 in
      elim (Bool-cases (q == p)) [
        | inl same ↦ let gone : none ≡ some w.0.0 = rw same at w.0.1 in cc
        | inr apart ↦ (ground arith, ((w.0.0, rw apart at w.0.1), rest))
      ]

  -- Freeing that comes through has freed distinct objects.
  pub release_all-Distinct :
      (ps : List ℕ) (h : Heap A) {g : Heap A}
      → release_all ps h ≡ ok g
      → Distinct ps × All (IsLive h) ps
  unfolding release_all
  release_all-Distinct [] h e = (tt, tt)
  release_all-Distinct (p ∷ ps) h e = elim (Option-cases (h.cell p)) [
    | inl nothing ↦ let bad = rw (release-none h p nothing) at e in cc
    | inr live ↦
        let (d, w) = release_all-Distinct ps (update h p none) (rw (release-live h p live) at e) in
        let (out, w') = All-IsLive-back h p ps w in ((out, d), (live, w'))
  ]

abbrev pub pointer_list : Option ℕ → List ℕ
pointer_list none = []
pointer_list (some p) = p ∷ []

module _ {A : Type 0} where
  pub release_all-append :
      (ps qs : List ℕ) (h : Heap A)
      → release_all (ps ++ qs) h ≡ (release_all ps h >>= release_all qs)
  unfolding release_all
  release_all-append [] qs h = refl
  release_all-append (p ∷ ps) qs h =
      bind-cong (release h p) _ _ (release_all-append ps qs)
      ∙ sym (bind_assoc (release h p) (release_all ps) (release_all qs))

  pub release_all-one : (p : ℕ) (h : Heap A) → release_all (p ∷ []) h ≡ release h p
  unfolding release_all
  release_all-one p h = bind-ok (release h p)

  pub free_pointer-list :
      (o : Option ℕ) (h : Heap A) → free_pointer h o ≡ release_all (pointer_list o) h
  unfolding free_pointer release_all
  free_pointer-list none h = refl
  free_pointer-list (some p) h = sym (release_all-one p h)

-- The numbers of a list but one.
abbrev others : ℕ → List ℕ → List ℕ
others n [] = []
others n (p ∷ ps) = if p == n then others n ps else p ∷ others n ps

others-absent : (n : ℕ) (ps : List ℕ) → contains ps n ≡ false → others n ps ≡ ps
others-absent n [] h = refl
others-absent n (p ∷ ps) h =
    let e : (p == n) ≡ false = ground arith in rw e (ap (◌∷◌ p) (others-absent n ps (ground arith)))

contains-others : (n b : ℕ) (ps : List ℕ) → contains ps b ≡ false → contains (others n ps) b ≡ false
contains-others n b [] h = refl
contains-others n b (p ∷ ps) h = ground (arith, contains-others n b ps)

Distinct-others : (n : ℕ) (ps : List ℕ) → Distinct ps → Distinct (others n ps)
Distinct-others n [] d = tt
Distinct-others n (p ∷ ps) d = elim (Bool-cases (p == n)) [
  | inl same ↦ rw same (Distinct-others n ps d.1)
  | inr apart ↦ rw apart (contains-others n p ps d.0, Distinct-others n ps d.1)
]

length-others : (n : ℕ) (ps : List ℕ) → Distinct ps → length ps ≤ suc (length (others n ps))
length-others n [] d = omega arith
length-others n (p ∷ ps) d = elim (Bool-cases (p == n)) [
  | inl same ↦ rw same (
      let there : contains ps n ≡ false = ground (arith, d.0, same) in
      omega (arith, ap length (others-absent n ps there)))
  | inr apart ↦ rw apart (omega (arith, length-others n ps d.1))
]

All-others : (n : ℕ) (ps : List ℕ) → All (λ p. p < suc n) ps → All (λ p. p < n) (others n ps)
All-others n [] w = tt
All-others n (p ∷ ps) w = elim (Bool-cases (p == n)) [
  | inl same ↦ rw same (All-others n ps w.1)
  | inr apart ↦ rw apart (ground (arith, w.0, apart), All-others n ps w.1)
]

-- Distinct numbers below a bound are no more than the bound.
length-Distinct : (n : ℕ) (ps : List ℕ) → Distinct ps → All (λ p. p < n) ps → length ps ≤ n
length-Distinct zero [] d w = omega arith
length-Distinct zero (p ∷ ps) d w = absurd (omega (arith, w.0))
length-Distinct (suc n) ps d w =
    let ih = length-Distinct n (others n ps) (Distinct-others n ps d) (All-others n ps w) in
    omega (arith, ih, length-others n ps d)

module _ {A : Type 0} where
  pub IsLive-below : (h : Heap A) (p : ℕ) → IsHeap h → IsLive h p → p < h.next
  IsLive-below h p v (c, e) = elim (Bool-cases (ltb p h.next)) [
    | inl below ↦ ltb→lt p h.next below
    | inr above ↦ let nothing = v p (ground (arith, above)) in cc
  ]

  -- Distinct objects are no more than the addresses that were given out.
  pub length-live :
      (h : Heap A) (ps : List ℕ) → IsHeap h → Distinct ps → All (IsLive h) ps → length ps ≤ h.next
  length-live h ps v d w = length-Distinct h.next ps d (below ps w)
    where
      below : (qs : List ℕ) → All (IsLive h) qs → All (λ p. p < h.next) qs
      below [] u = tt
      below (q ∷ qs) u = (IsLive-below h q v u.0, below qs u.1)
