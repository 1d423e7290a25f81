-- ===== src/Sip/Chain/Linked.antt =====
-- The header list that a parse links, header by header.
use sipster.Base.{
  append-nil, if◌then◌else◌, sym, ℕ, ◌+◌, ◌^◌, ◌≤◌, Bool, true, false, List, [], ◌∷◌, ◌++◌, map,
  Option, some, ◌≡◌, inl, refl, ap, ◌∙◌, arith, length, length-append, append_assoc,
}
use sipster.Sip.Enums.{HeaderId, same_header}
use sipster.Sip.Header.{Header}
use sipster.Sip.Chain.{
  found, first_or, empty_chain, Leaf, Chain, last?, append_new_header, link_header, walk, collect,
  get_header,
}
use sipster.Sip.Chain.Laws.{
  new_leaf, IsLinked, IsChain, Indexed, link_header-IsLinked, walk-link_header,
  append_new_header-IsChain,
}

abbrev pub link_all : List Header → Chain → Chain
link_all [] c = c
link_all (h ∷ hs) c = link_all hs (link_header c h)

abbrev pub chain_of : List Header → Chain
chain_of hs = link_all hs empty_chain

abbrev pub header_of : Leaf → Option Header
header_of l = l.header

map-append_header :
    (ls : List Leaf) (l : Leaf) → map header_of (ls ++ l ∷ []) ≡ map header_of ls ++ l.header ∷ []
map-append_header [] l = refl
map-append_header (m ∷ ls) l = ap (◌∷◌ m.header) (map-append_header ls l)

-- A walk meets the linked headers in their order.
walk-link_all :
    (hs : List Header) (c : Chain)
    → IsLinked c
    → map header_of (walk (link_all hs c)) ≡ map header_of (walk c) ++ map some hs
walk-link_all [] c v = sym (append-nil (map header_of (walk c)))
walk-link_all (h ∷ hs) c v =
    walk-link_all hs (link_header c h) (link_header-IsLinked c h v)
    ∙ ap (λ ls. map header_of ls ++ map some hs) (walk-link_header c h v)
    ∙ ap (λ ls. ls ++ map some hs) (map-append_header (walk c) (new_leaf c h))
    ∙ append_assoc (map header_of (walk c)) (some h ∷ []) (map some hs)

pub walk-chain_of : (hs : List Header) → map header_of (walk (chain_of hs)) ≡ map some hs
walk-chain_of hs = walk-link_all hs empty_chain (inl (refl, refl))

-- Whether none of the headers has that id.
abbrev pub lacks : HeaderId → List Header → Bool
lacks i [] = true
lacks i (h ∷ hs) = if same_header h.header_id i then false else lacks i hs

abbrev pub is_nil : List (Option Header) → Bool
is_nil fs = elim fs [ [] ↦ true | _ ∷ _ ↦ false ]

collect-lacks :
    (i : HeaderId) (ls : List Leaf) (hs : List Header)
    → map header_of ls ≡ map some hs
    → is_nil (collect i ls).headers ≡ lacks i hs
unfolding collect found
collect-lacks i [] [] e = refl
collect-lacks i [] (h ∷ hs) e = cc
collect-lacks i (l ∷ ls) [] e = cc
collect-lacks i (l ∷ ls) (h ∷ hs) e =
    let here : l.header ≡ some h = cc in
    let rest : map header_of ls ≡ map some hs = cc in
    rw here (go (same_header h.header_id i) (collect-lacks i ls hs rest))
  where
    go :
        (b : Bool)
        → is_nil (collect i ls).headers ≡ lacks i hs
        → is_nil (found b (some h) (collect i ls)).headers ≡ (if b then false else lacks i hs)
    go true ih = refl
    go false ih = ih

-- A search of linked headers gives NULL exactly if none has the id.
pub get_header-lacks :
    (i : HeaderId) (hs : List Header) → is_nil (get_header i (chain_of hs)).headers ≡ lacks i hs
unfolding get_header
get_header-lacks i hs = collect-lacks i (walk (chain_of hs)) hs (walk-chain_of hs)

link_all-first :
    (hs : List Header) (c : Chain) → c.first_header ≡ some 0 → (link_all hs c).first_header ≡ some 0
unfolding link_header first_or append_new_header
link_all-first [] c e = e
link_all-first (h ∷ hs) c e = link_all-first hs (link_header c h) (rw e refl)

link_all-append :
    (hs ks : List Header) (c : Chain) → link_all (hs ++ ks) c ≡ link_all ks (link_all hs c)
link_all-append [] ks c = refl
link_all-append (h ∷ hs) ks c = link_all-append hs ks (link_header c h)

append-linked :
    (c : Chain) (k : Header) → c.first_header ≡ some 0 → append_new_header c k ≡ link_header c k
unfolding link_header first_or append_new_header
append-linked c k e =
    ap (λ (f : Option ℕ). record (append_new_header c k) { first_header = f }) (rw e refl)

-- Behind a first header, an append links too.
pub append_new_header-chain_of :
    (h : Header) (hs : List Header) (k : Header)
    → append_new_header (chain_of (h ∷ hs)) k ≡ chain_of (h ∷ (hs ++ k ∷ []))
unfolding link_header first_or append_new_header
append_new_header-chain_of h hs k =
    append-linked (chain_of (h ∷ hs)) k (link_all-first hs (link_header empty_chain h) refl)
    ∙ sym (link_all-append hs (k ∷ []) (link_header empty_chain h))

link_all-IsChain : (hs : List Header) (c : Chain) → IsChain c → IsChain (link_all hs c)
unfolding link_header
link_all-IsChain [] c v = v
link_all-IsChain (h ∷ hs) c v =
    let w = append_new_header-IsChain c h v in
    link_all-IsChain hs (link_header c h) (record { counted = w.counted; indexed = w.indexed })

length-link_all :
    (hs : List Header) (c : Chain) → length (link_all hs c).leaves ≡ length c.leaves + length hs
unfolding link_header append_new_header
length-link_all [] c = omega arith
length-link_all (h ∷ hs) c =
    let e = length-append c.leaves (new_leaf c h ∷ []) in
    omega (arith, length-link_all hs (link_header c h), e)

last-index :
    (k : ℕ) (l : Leaf) (ls : List Leaf)
    → Indexed k (l ∷ ls)
    → k + length (l ∷ ls) ≤ 2 ^ 16
    → (m : Leaf) × (last? (l ∷ ls) ≡ some m) × (m.index + 1 ≡ k + length (l ∷ ls))
last-index k l [] v h = (l, refl, omega (arith, v.0))
last-index k l (m ∷ ls) v h =
    let (n, e, i) = last-index (k + 1) m ls v.1 (omega (arith, h)) in (n, e, omega (arith, i))

-- The last of up to 2 ^ 16 linked headers has the index that its place gives.
pub last-chain_of :
    (h : Header) (hs : List Header)
    → length (h ∷ hs) ≤ 2 ^ 16
    → (m : Leaf) × (last? (chain_of (h ∷ hs)).leaves ≡ some m) × (m.index + 1 ≡ length (h ∷ hs))
last-chain_of h hs small =
    go (chain_of (h ∷ hs)).leaves (link_all-IsChain (h ∷ hs) empty_chain empty-IsChain).indexed
      (length-link_all (h ∷ hs) empty_chain)
  where
    empty-IsChain : IsChain empty_chain
    empty-IsChain = record { counted = refl; indexed = tt }

    go :
        (ls : List Leaf)
        → Indexed 0 ls
        → length ls ≡ 0 + length (h ∷ hs)
        → (m : Leaf) × (last? ls ≡ some m) × (m.index + 1 ≡ length (h ∷ hs))
    go [] v e = absurd (omega (arith, e))
    go (l ∷ ls) v e =
        let (m, there, i) = last-index 0 l ls v (omega (arith, e, small)) in
        (m, there, omega (arith, i, e))
