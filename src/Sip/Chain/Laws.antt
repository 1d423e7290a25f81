-- ===== src/Sip/Chain/Laws.antt =====
-- Laws of the header list: the metadata and the indices that an append keeps, and what a search finds
-- behind it.
use sipster.Base.{
  inr, inl, ℕ, ◌+◌, ◌%◌, ◌^◌, Bool, true, false, List, [], ◌∷◌, ◌++◌, Option, none, some, ◌≡◌, ◌⊎◌,
  refl, ap, ◌∙◌, arith, if◌then◌else◌, length, length-append,
}
use sipster.Sip.Enums.{HeaderId, same_header}
use sipster.Sip.Header.{Header}
use sipster.Sip.Chain.{
  empty_chain, Leaf, Chain, last?, next_index, append_new_header, first_or, link_header, walk,
  holds, Found, found, collect, get_header,
}

-- The leaf at place `k` of the list has the index `k`, as an `unsigned short`.
abbrev pub Indexed : ℕ → List Leaf → Type 0
Indexed k [] = Unit
Indexed k (l ∷ ls) = (l.index ≡ k % 2 ^ 16) × Indexed (k + 1) ls

-- The metadata count the leaves, and the indices number them.
pub record IsChain (c : Chain) : Type 0 where
  pub counted : c.count ≡ length c.leaves
  pub indexed : Indexed 0 c.leaves

next_index-last? :
    (k : ℕ) (l : Leaf) (ls : List Leaf)
    → Indexed k (l ∷ ls)
    → next_index (last? (l ∷ ls)) ≡ (k + length (l ∷ ls)) % 2 ^ 16
unfolding next_index
next_index-last? k l [] h = omega arith
next_index-last? k l (m ∷ ls) h =
    next_index-last? (k + 1) m ls h.1 ∙ ap (λ n. n % 2 ^ 16) (omega arith)

Indexed-append :
    (k : ℕ) (ls : List Leaf) (l : Leaf)
    → Indexed k ls
    → l.index ≡ (k + length ls) % 2 ^ 16
    → Indexed k (ls ++ l ∷ [])
Indexed-append k [] l h e = (e ∙ ap (λ n. n % 2 ^ 16) (omega arith), tt)
Indexed-append k (m ∷ ls) l h e =
    (h.0, Indexed-append (k + 1) ls l h.1 (e ∙ ap (λ n. n % 2 ^ 16) (omega arith)))

next_index-length :
    (ls : List Leaf) → Indexed 0 ls → next_index (last? ls) ≡ (0 + length ls) % 2 ^ 16
unfolding next_index
next_index-length [] h = refl
next_index-length (l ∷ ls) h = next_index-last? 0 l ls h

-- Appending keeps the metadata exact: the count is the number of leaves, and every leaf has its
-- place, modulo 2 ^ 16, for an index.
pub append_new_header-IsChain :
    (c : Chain) (h : Header) → IsChain c → IsChain (append_new_header c h)
unfolding append_new_header
append_new_header-IsChain c h v = record {
  counted = omega (
    arith,
    v.counted,
    length-append c.leaves (record { index = next_index (last? c.leaves); header = some h } ∷ []),
  );
  indexed = Indexed-append 0 c.leaves _ v.indexed (next_index-length c.leaves v.indexed);
}

-- What a message that is built by `link_header` alone keeps: `firstHeader` is the first leaf.
abbrev pub IsLinked : Chain → Type 0
IsLinked c = ((c.leaves ≡ []) × (c.first_header ≡ none)) ⊎ (c.first_header ≡ some 0)

pub link_header-IsLinked : (c : Chain) (h : Header) → IsLinked c → IsLinked (link_header c h)
unfolding link_header first_or append_new_header
link_header-IsLinked c h v = ground arith

abbrev pub new_leaf : Chain → Header → Leaf
new_leaf c h = record { index = next_index (last? c.leaves); header = some h }

pub walk-link_header :
    (c : Chain) (h : Header) → IsLinked c → walk (link_header c h) ≡ walk c ++ new_leaf c h ∷ []
unfolding link_header first_or append_new_header
walk-link_header c h v = ground arith

abbrev add_found : Bool → Option Header → Found → Found
add_found true h f = record { headers = f.headers ++ h ∷ []; count = f.count + 1 }
add_found false h f = f

found-add_found :
    (b d : Bool) (h k : Option Header) (f : Found)
    → found b h (add_found d k f) ≡ add_found d k (found b h f)
unfolding found
found-add_found true true h k f = refl
found-add_found true false h k f = refl
found-add_found false true h k f = refl
found-add_found false false h k f = refl

collect-append :
    (i : HeaderId) (ls : List Leaf) (l : Leaf)
    → collect i (ls ++ l ∷ []) ≡ add_found (holds i l.header) l.header (collect i ls)
unfolding collect found
collect-append i [] l = found-empty (holds i l.header)
  where
    found-empty : (b : Bool) → found b l.header (collect i []) ≡ add_found b l.header (collect i [])
    found-empty true = refl
    found-empty false = refl
collect-append i (m ∷ ls) l =
    ap (found (holds i m.header) m.header) (collect-append i ls l)
    ∙ found-add_found (holds i m.header) (holds i l.header) m.header l.header (collect i ls)

-- A search behind a link finds what it found before, and then the new header if it has that id.
pub get_header-link_header :
    (i : HeaderId) (c : Chain) (h : Header)
    → IsLinked c
    → get_header i (link_header c h) ≡ (
        if same_header h.header_id i
        then record {
          headers = (get_header i c).headers ++ some h ∷ [];
          count = (get_header i c).count + 1;
        }
        else get_header i c)
unfolding get_header
get_header-link_header i c h v =
    ap (collect i) (walk-link_header c h v)
    ∙ collect-append i (walk c) (new_leaf c h)
    ∙ as_test (same_header h.header_id i)
  where
    as_test :
        (b : Bool)
        → add_found b (some h) (get_header i c) ≡ (
            if b
            then record {
              headers = (get_header i c).headers ++ some h ∷ [];
              count = (get_header i c).count + 1;
            }
            else get_header i c)
    as_test true = refl
    as_test false = refl

-- A header that is appended while `firstHeader` is NULL is not found.
pub get_header-append_new_header_lost :
    (i : HeaderId) (c : Chain) (h : Header)
    → c.first_header ≡ none
    → (get_header i (append_new_header c h)).headers ≡ []
unfolding get_header append_new_header collect
get_header-append_new_header_lost i c h e = ground arith

-- How many of the leaves hold a header of that id.
pub collect-count :
    (i : HeaderId) (l : Leaf) (ls : List Leaf)
    → (collect i (l ∷ ls)).count
      ≡ (if holds i l.header then (collect i ls).count + 1 else (collect i ls).count)
unfolding collect found
collect-count i l ls = go (holds i l.header)
  where
    go :
        (b : Bool)
        → (found b l.header (collect i ls)).count
          ≡ (if b then (collect i ls).count + 1 else (collect i ls).count)
    go true = refl
    go false = refl

walk-append_new_header :
    (c : Chain) (h : Header)
    → IsLinked c
    → (walk (append_new_header c h) ≡ walk c)
      ⊎ (walk (append_new_header c h) ≡ walk c ++ new_leaf c h ∷ [])
unfolding append_new_header
walk-append_new_header c h (inl (none_left, e)) = inl (rw e refl)
walk-append_new_header c h (inr e) = inr (rw e refl)

-- An append does not disturb the search for another id.
pub get_header-append_new_header_other :
    (i : HeaderId) (c : Chain) (h : Header)
    → IsLinked c
    → same_header h.header_id i ≡ false
    → get_header i (append_new_header c h) ≡ get_header i c
unfolding get_header
get_header-append_new_header_other i c h v other = elim (walk-append_new_header c h v) [
  | inl e ↦ ap (collect i) e
  | inr e ↦
      ap (collect i) e
      ∙ collect-append i (walk c) (new_leaf c h)
      ∙ ap (λ b. add_found b (some h) (collect i (walk c))) other
]

pub get_header-empty_chain : (i : HeaderId) → (get_header i empty_chain).count ≡ 0
unfolding get_header collect
get_header-empty_chain i = refl
