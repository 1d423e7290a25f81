-- ===== src/Sip/Chain.antt =====
-- The header list of a message: `sipster_sip_append_new_header` and `sipster_sip_get_header` of
-- src/sip_headers.cpp, with the `firstHeader` and `lastHeader` pointers that messages keep.
--
-- The leaves stand in the order of their links, which is the order of their allocation, since the
-- code appends behind `lastHeader` only; `lastHeader` is the last of them, or NULL if there is none.
-- `first_header` is the place of the leaf that `firstHeader` points at.
pub mod Laws
pub mod Linked
use sipster.Base.{
  ℕ, ◌+◌, ◌%◌, ◌^◌, Bool, true, false, List, [], ◌∷◌, ◌++◌, Option, none, some, length, drop,
}
use sipster.Sip.Enums.{HeaderId, same_header}
use sipster.Sip.Header.{Header}

-- `struct _SipsterSipHeaderLeaf`; `index` is an `unsigned short`, and `header` may become NULL.
pub record Leaf : Type 0 where
  pub index : ℕ
  pub header : Option Header

-- `count` is that of the metadata which all leaves share.
pub record Chain : Type 0 where
  pub leaves : List Leaf
  pub count : ℕ
  pub first_header : Option ℕ

abbrev pub empty_chain : Chain
empty_chain = record { leaves = []; count = 0; first_header = none }

abbrev pub last? : List Leaf → Option Leaf
last? [] = none
last? (l ∷ []) = some l
last? (l ∷ m ∷ ls) = last? (m ∷ ls)

unfoldable pub next_index : Option Leaf → ℕ
next_index none = 0
next_index (some l) = (l.index + 1) % 2 ^ 16

-- `lastHeader = sipster_sip_append_new_header(lastHeader, header)`; `firstHeader` is left alone.
unfoldable pub append_new_header : Chain → Header → Chain
unfolding next_index
append_new_header c h = record c {
  leaves = c.leaves ++ record { index = next_index (last? c.leaves); header = some h } ∷ [];
  count = c.count + 1;
}

first_or : Option ℕ → ℕ → Option ℕ
first_or none place = some place
first_or (some first) place = some first

-- The same, and `if(!firstHeader) firstHeader = lastHeader`.
unfoldable pub link_header : Chain → Header → Chain
unfolding first_or
link_header c h = record (append_new_header c h) {
  first_header = first_or c.first_header (length c.leaves);
}

-- The leaves that a walk from `firstHeader` along `next` meets.
abbrev pub walk_from : List Leaf → Option ℕ → List Leaf
walk_from ls none = []
walk_from ls (some first) = drop first ls

abbrev pub walk : Chain → List Leaf
walk c = walk_from c.leaves c.first_header

-- The test of `sipster_sip_get_header` on one leaf.
abbrev pub holds : HeaderId → Option Header → Bool
holds i none = false
holds i (some h) = same_header h.header_id i

-- `sipster_sip_get_header`: the headers of that id, in order. NULL is the empty list; the `count` of
-- the shared metadata is the number of rounds that found one.
pub record Found : Type 0 where
  pub headers : List (Option Header)
  pub count : ℕ

found : Bool → Option Header → Found → Found
found true h f = record { headers = h ∷ f.headers; count = f.count + 1 }
found false h f = f

unfoldable pub collect : HeaderId → List Leaf → Found
unfolding found
collect i [] = record { headers = []; count = 0 }
collect i (l ∷ ls) = found (holds i l.header) l.header (collect i ls)

unfoldable pub get_header : HeaderId → Chain → Found
get_header i c = collect i (walk c)
