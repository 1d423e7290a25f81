-- ===== src/Sip/Objects/Lists.antt =====
-- Header lists in memory: leaves at distinct addresses, linked in the order of the list that a message
-- is modelled with.
use sipster.Base.{
  ℕ, true, false, List, [], ◌∷◌, ◌++◌, Option, none, some, ◌≡◌, refl, ◌∙◌, arith, contains, ◌==◌,
  Bool-cases, inl, inr,
}
use sipster.Memory.{Heap}
use sipster.Memory.Freeing.{Distinct}
use sipster.Sip.Header.{Header}
use sipster.Sip.Chain.{Leaf, Chain, last?}
use sipster.Sip.Objects.{Cell, LeafCell, header_cell, leaf_cell, metadata_cell}

-- The header that a leaf's pointer stands for.
abbrev pub Denotes : Heap Cell → Option ℕ → Option Header → Type 0
Denotes h none o = o ≡ none
Denotes h (some q) o =
    (x : Header) × (parsed : Option ℕ) × (first : Option ℕ) × (h.cell q
      ≡ some (header_cell x parsed first))
    × (o ≡ some x)

-- From that pointer, the leaves of the list stand at these addresses, all with that metadata.
pub data Linked (h : Heap Cell) (metadata : ℕ) : Option ℕ → List ℕ → List Leaf → Type 0 where
  nil : Linked h metadata none [] []
  cons :
      {p : ℕ} {n : Option ℕ} {bs : List ℕ} {ls : List Leaf} {m : Leaf} (l : LeafCell)
      → h.cell p ≡ some (leaf_cell l)
      → l.next ≡ n
      → l.metadata ≡ some metadata
      → l.index ≡ m.index
      → Denotes h l.header m.header
      → Linked h metadata n bs ls
      → Linked h metadata (some p) (p ∷ bs) (m ∷ ls)

abbrev pub last_address : List ℕ → Option ℕ
last_address [] = none
last_address (a ∷ []) = some a
last_address (a ∷ b ∷ bs) = last_address (b ∷ bs)

abbrev pub Counted : Heap Cell → ℕ → ℕ → List ℕ → Type 0
Counted h metadata count [] = count ≡ 0
Counted h metadata count (a ∷ bs) = h.cell metadata ≡ some (metadata_cell count)

-- `firstHeader` and `lastHeader` in memory, and the list that they stand for.
pub record Represents (h : Heap Cell) (first last : Option ℕ) (c : Chain) : Type 0 where
  pub addresses : List ℕ
  pub metadata : ℕ
  pub linked : Linked h metadata first addresses c.leaves
  pub distinct : Distinct addresses
  pub is_last : last ≡ last_address addresses
  pub counted : Counted h metadata c.count addresses

pub last_address-contains : (bs : List ℕ) (q : ℕ) → last_address bs ≡ some q → contains bs q ≡ true
last_address-contains [] q e = cc
last_address-contains (a ∷ []) q e = ground arith
last_address-contains (a ∷ b ∷ bs) q e = ground (arith, last_address-contains (b ∷ bs) q e)

abbrev pub KeepsHeaders : Heap Cell → Heap Cell → Type 0
KeepsHeaders h g =
    (a : ℕ) (x : Header) (u v : Option ℕ)
    → h.cell a ≡ some (header_cell x u v)
    → g.cell a ≡ some (header_cell x u v)

pub Denotes-same :
    (h g : Heap Cell) (o : Option ℕ) (x : Option Header)
    → KeepsHeaders h g
    → Denotes h o x
    → Denotes g o x
Denotes-same h g none x keeps d = d
Denotes-same h g (some q) x keeps (y, u, v, e, f) = (y, u, v, keeps q y u v e, f)

-- The last leaf of a list in memory.
pub last-cell :
    {h : Heap Cell} {metadata : ℕ} {o : Option ℕ} {bs : List ℕ} {ls : List Leaf} (q : ℕ)
    → Linked h metadata o bs ls
    → last_address bs ≡ some q
    → (l : LeafCell) × (m : Leaf) × (h.cell q ≡ some (leaf_cell l))
      × (l.metadata ≡ some metadata)
      × (l.index ≡ m.index)
      × (last? ls ≡ some m)
last-cell q nil e = cc
last-cell q (cons {p} {m} l stands next meta index d nil) e =
    let same : p ≡ q = cc in (l, m, rw same at stands, meta, index, refl)
last-cell q (cons {p} {m} l stands next meta index d (cons l2 s2 n2 m2 i2 d2 t)) e =
    last-cell q (cons l2 s2 n2 m2 i2 d2 t) e

pub Linked-append :
    {h : Heap Cell} {metadata : ℕ} {o : Option ℕ} {bs : List ℕ} {ls : List Leaf} (g : Heap Cell)
    (q new : ℕ) (old : LeafCell) (m : Leaf)
    → Linked h metadata o bs ls
    → Distinct bs
    → last_address bs ≡ some q
    → h.cell q ≡ some (leaf_cell old)
    → ((a : ℕ) → contains bs a ≡ true → (a == q) ≡ false → g.cell a ≡ h.cell a)
    → KeepsHeaders h g
    → g.cell q ≡ some (leaf_cell (record old { next = some new }))
    → Linked g metadata (some new) (new ∷ []) (m ∷ [])
    → Linked g metadata o (bs ++ new ∷ []) (ls ++ m ∷ [])
Linked-append g q new old m nil d e c same keeps linked tail = cc
Linked-append {h} g q new old m (cons {p} {m = k} l stands next meta index den nil) d e c same keeps
      linked tail =
    let here : p ≡ q = cc in
    let it : l ≡ old = cc in
    let meta' = rw it at meta in
    let index' = rw it at index in
    let den' = rw it at den in
    cons (record old { next = some new }) (rw here linked) refl meta' index'
      (Denotes-same h g old.header k.header keeps den') tail
Linked-append {h} g q new old m
      (cons {p} {m = k} l stands next meta index den (cons {p = p2} {bs = bs2} l2 s2 n2 m2 i2 d2 t))
      d e c same keeps linked tail =
    let there = last_address-contains (p2 ∷ bs2) q e in
    let apart : (p == q) ≡ false = differ in
    cons l (same p (ground arith) apart ∙ stands) next meta index
      (Denotes-same h g l.header k.header keeps den)
      (Linked-append g q new old m (cons l2 s2 n2 m2 i2 d2 t) d.1 e c
        (λ a i. same a (ground (arith, i))) keeps linked tail)
  where
    differ : (p == q) ≡ false
    differ = elim (Bool-cases (p == q)) [
      | inl same ↦
          let same' : p ≡ q = ground (arith, same) in
          let inside : contains (p2 ∷ bs2) q ≡ true = last_address-contains (p2 ∷ bs2) q e in
          let out : contains (p2 ∷ bs2) q ≡ false = rw same' at d.0 in
          absurd (ground (arith, inside, out))
      | inr apart ↦ apart
    ]

-- `if(!firstHeader) firstHeader = lastHeader`.
abbrev pub first_pointer : Option ℕ → ℕ → Option ℕ
first_pointer none new = some new
first_pointer (some p) new = some p

pub first_pointer-kept :
    {h : Heap Cell} {metadata : ℕ} {o : Option ℕ} {bs : List ℕ} {ls : List Leaf} (q new : ℕ)
    → Linked h metadata o bs ls
    → last_address bs ≡ some q
    → first_pointer o new ≡ o
first_pointer-kept q new nil e = cc
first_pointer-kept q new (cons l stands next meta index den t) e = refl

pub Linked-absent :
    {h : Heap Cell} {metadata : ℕ} {o : Option ℕ} {bs : List ℕ} {ls : List Leaf} (a : ℕ)
    → Linked h metadata o bs ls
    → h.cell a ≡ none
    → contains bs a ≡ false
Linked-absent a nil e = refl
Linked-absent a (cons {p} l stands next meta index den t) e =
    ground (arith, stands, e, Linked-absent a t e)

pub last_address-append : (bs : List ℕ) (a : ℕ) → last_address (bs ++ a ∷ []) ≡ some a
last_address-append [] a = refl
last_address-append (b ∷ []) a = refl
last_address-append (b ∷ c ∷ bs) a = last_address-append (c ∷ bs) a

pub last_address-some : (a : ℕ) (bs : List ℕ) → (q : ℕ) × (last_address (a ∷ bs) ≡ some q)
last_address-some a [] = (a, refl)
last_address-some a (b ∷ bs) = last_address-some b bs

pub Counted-append :
    (g : Heap Cell) (metadata count a : ℕ) (bs : List ℕ)
    → g.cell metadata ≡ some (metadata_cell count)
    → Counted g metadata count (bs ++ a ∷ [])
Counted-append g metadata count a [] e = e
Counted-append g metadata count a (b ∷ bs) e = e

pub Linked-cell :
    {h : Heap Cell} {metadata : ℕ} {o : Option ℕ} {bs : List ℕ} {ls : List Leaf} (a : ℕ)
    → Linked h metadata o bs ls
    → contains bs a ≡ true
    → (l : LeafCell) × (h.cell a ≡ some (leaf_cell l))
Linked-cell a nil i = cc
Linked-cell a (cons {p} {bs} l stands next meta index den t) i = elim (Bool-cases (a == p)) [
  | inl same ↦ let same' : p ≡ a = ground (arith, same) in (l, rw same' at stands)
  | inr other ↦ Linked-cell a t (ground (arith, i, other))
]
