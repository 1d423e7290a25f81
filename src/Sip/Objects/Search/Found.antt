-- ===== src/Sip/Objects/Search/Found.antt =====
-- What a search in memory finds.
use sipster.Base.{
  ℕ, ◌<◌, ◌≤◌, true, false, List, [], ◌∷◌, ◌++◌, Option, none, some, ◌≡◌, refl, arith, contains,
  ◌==◌, Bool-cases, inl, inr, length,
}
use sipster.Memory.{Heap}
use sipster.Memory.Freeing.{IsHeap, Distinct}
use sipster.Sip.Header.{Header}
use sipster.Sip.Objects.{Cell, LeafCell, leaf_cell, metadata_cell}
use sipster.Sip.Objects.Leaves.{contains-append}
use sipster.Sip.Objects.Lists.{last_address-contains, Denotes, last_address}

-- In the memory `g`, the leaves at these addresses are linked from that pointer, with that metadata, and
-- point at these headers of the memory `h`.
pub data Copies (h g : Heap Cell) (metadata : ℕ)
    : Option ℕ → List ℕ → List (Option Header) → Type 0 where
  nil : Copies h g metadata none [] []
  cons :
      {p : ℕ} {n : Option ℕ} {qs : List ℕ} {r : Option Header} {rs : List (Option Header)}
      (l : LeafCell)
      → g.cell p ≡ some (leaf_cell l)
      → l.next ≡ n
      → l.metadata ≡ some metadata
      → Denotes h l.header r
      → Copies h g metadata n qs rs
      → Copies h g metadata (some p) (p ∷ qs) (r ∷ rs)

-- A result of the search: a list of new leaves from `head` to `tail`, with the count of these; but for
-- them and their metadata the memory is as it was.
pub record IsResult (h g : Heap Cell) (head tail : ℕ) (rs : List (Option Header)) : Type 0 where
  pub addresses : List ℕ
  pub metadata : ℕ
  pub copies : Copies h g metadata (some head) addresses rs
  pub distinct : Distinct addresses
  pub is_last : last_address addresses ≡ some tail
  pub fresh : (a : ℕ) → contains addresses a ≡ true → h.next ≤ a
  pub fresh_metadata : h.next ≤ metadata
  pub counted : g.cell metadata ≡ some (metadata_cell (length rs))
  pub exact : (a : ℕ) → contains (metadata ∷ addresses) a ≡ false → g.cell a ≡ h.cell a

abbrev pub Ends : Heap Cell → Heap Cell → Option (ℕ × ℕ) → List (Option Header) → Type 0
Ends h g none rs = (rs ≡ []) × ((a : ℕ) → g.cell a ≡ h.cell a)
Ends h g (some (head, tail)) rs = IsResult h g head tail rs

-- The memory `h` is as it was, and the leaves found so far are behind it.
pub record IsFound (h g : Heap Cell) (ends : Option (ℕ × ℕ)) (rs : List (Option Header))
    : Type 0 where
  pub heap : IsHeap g
  pub grown : h.next ≤ g.next
  pub kept : (a : ℕ) → a < h.next → g.cell a ≡ h.cell a
  pub result : Ends h g ends rs

pub last-copy :
    {h g : Heap Cell} {metadata : ℕ} {o : Option ℕ} {qs : List ℕ} {rs : List (Option Header)}
    (q : ℕ)
    → Copies h g metadata o qs rs
    → last_address qs ≡ some q
    → (l : LeafCell) × (g.cell q ≡ some (leaf_cell l)) × (l.metadata ≡ some metadata)
last-copy q nil e = cc
last-copy q (cons {p} l stands next meta den nil) e =
    let same : p ≡ q = cc in (l, rw same at stands, meta)
last-copy q (cons l stands next meta den (cons l2 s2 n2 m2 d2 t)) e =
    last-copy q (cons l2 s2 n2 m2 d2 t) e

pub Copies-absent :
    {h g : Heap Cell} {metadata : ℕ} {o : Option ℕ} {qs : List ℕ} {rs : List (Option Header)}
    (a : ℕ)
    → Copies h g metadata o qs rs
    → g.cell a ≡ none
    → contains qs a ≡ false
Copies-absent a nil e = refl
Copies-absent a (cons l stands next meta den t) e = ground (arith, stands, e, Copies-absent a t e)

-- The leaf behind the last one is linked from it, whatever index that gets.
pub Copies-append :
    {h g : Heap Cell} {metadata : ℕ} {o : Option ℕ} {qs : List ℕ} {rs : List (Option Header)}
    (k : Heap Cell) (q new i : ℕ) (old : LeafCell) (r : Option Header)
    → Copies h g metadata o qs rs
    → Distinct qs
    → last_address qs ≡ some q
    → g.cell q ≡ some (leaf_cell old)
    → ((a : ℕ) (l : LeafCell)
        → g.cell a ≡ some (leaf_cell l)
        → (a == q) ≡ false
        → k.cell a ≡ some (leaf_cell l))
    → k.cell q ≡ some (leaf_cell (record old { index = i; next = some new }))
    → Copies h k metadata (some new) (new ∷ []) (r ∷ [])
    → Copies h k metadata o (qs ++ new ∷ []) (rs ++ r ∷ [])
Copies-append k q new i old r nil d e c same linked tail = cc
Copies-append k q new i old r (cons {p} l stands next meta den nil) d e c same linked tail =
    let here : p ≡ q = cc in
    let it : l ≡ old = cc in
    let meta' = rw it at meta in
    let den' = rw it at den in
    cons (record old { index = i; next = some new }) (rw here linked) refl meta' den' tail
Copies-append k q new i old r
      (cons {p} l stands next meta den (cons {p = p2} {qs = qs2} l2 s2 n2 m2 d2 t)) d e c same
      linked tail =
    cons l (same p l stands differ) next meta den
      (Copies-append k q new i old r (cons l2 s2 n2 m2 d2 t) d.1 e c same linked tail)
  where
    differ : (p == q) ≡ false
    differ = elim (Bool-cases (p == q)) [
      | inl same' ↦
          let one : p ≡ q = ground (arith, same') in
          let inside : contains (p2 ∷ qs2) q ≡ true = last_address-contains (p2 ∷ qs2) q e in
          let out : contains (p2 ∷ qs2) q ≡ false = rw one at d.0 in
          absurd (ground (arith, inside, out))
      | inr apart ↦ apart
    ]

pub first-copy :
    {h g : Heap Cell} {metadata : ℕ} {qs : List ℕ} {rs : List (Option Header)} (p : ℕ)
    → Copies h g metadata (some p) qs rs
    → (l : LeafCell) × (g.cell p ≡ some (leaf_cell l)) × (l.metadata ≡ some metadata)
first-copy p (cons l stands next meta den t) = (l, stands, meta)

pub all_fresh :
    (new from : ℕ) (qs : List ℕ)
    → ((a : ℕ) → contains qs a ≡ true → from ≤ a)
    → from ≤ new
    → (a : ℕ) → contains (qs ++ new ∷ []) a ≡ true
    → from ≤ a
all_fresh new from [] all e a i = ground (arith, i, e)
all_fresh new from (q ∷ qs) all e a i = elim (Bool-cases (a == q)) [
  | inl same ↦ all a (ground (arith, same))
  | inr other ↦
      all_fresh new from qs (λ b j. all b (ground (arith, j))) e a (ground (arith, i, other))
]

pub contains-before :
    (m new a : ℕ) (qs : List ℕ) → contains (m ∷ (qs ++ new ∷ [])) a ≡ false → contains qs a ≡ false
contains-before m new a qs i = ground (arith, i, contains-append qs (new ∷ []) a)

pub apart_from_all :
    (m new q a : ℕ) (qs : List ℕ)
    → contains qs q ≡ true
    → contains (m ∷ (qs ++ new ∷ [])) a ≡ false
    → ((a == m) ≡ false) × ((a == new) ≡ false) × ((a == q) ≡ false)
apart_from_all m new q a qs inside i =
    let out = contains-before m new a qs i in
    (
      ground (arith, i),
      ground (arith, i, contains-append qs (new ∷ []) a),
      elim (Bool-cases (a == q)) [
        | inl same ↦
            let same' : a ≡ q = ground (arith, same) in
            let out' : contains qs q ≡ false = rw same' at out in
            absurd (ground (arith, inside, out'))
        | inr other ↦ other
      ],
    )
