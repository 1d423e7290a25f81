-- ===== src/Memory.antt =====
-- `sipster_allocator` and `sipster_free` of src/utils.cpp: objects at addresses. `calloc` gives an
-- address that it never gave before, and memory does not run out.
pub mod Freeing
use sipster.Base.{
  ℕ, ◌+◌, List, [], ◌∷◌, Option, none, some, Exec, ok, fault, use_after_free, bad_free, ◌>>=◌, ◌==◌,
  if◌then◌else◌,
}

-- An address without an object was not allocated, or its object was freed.
pub record Heap (A : Type 0) : Type 0 where
  pub next : ℕ
  pub cell : ℕ → Option A

module _ {A : Type 0} where
  abbrev pub update : Heap A → ℕ → Option A → Heap A
  update h p c = record h { cell = λ (a : ℕ). if a == p then c else h.cell a }

  unfoldable pub allocate : Heap A → A → ℕ × Heap A
  allocate h c = (h.next, record (update h h.next (some c)) { next = h.next + 1 })

  found_or : Exec A → Option A → Exec A
  found_or absent none = absent
  found_or absent (some c) = ok c

  unfoldable pub load : Heap A → ℕ → Exec A
  unfolding found_or
  load h p = found_or (fault use_after_free) (h.cell p)

  unfoldable pub store : Heap A → ℕ → A → Exec (Heap A)
  store h p c = do old ← load h p; ok (update h p (some c))

  -- `free` of an address: a fault where there is no object.
  unfoldable pub release : Heap A → ℕ → Exec (Heap A)
  unfolding found_or
  release h p = do old ← found_or (fault bad_free) (h.cell p); ok (update h p none)

  -- `sipster_free`.
  unfoldable pub free_pointer : Heap A → Option ℕ → Exec (Heap A)
  free_pointer h none = ok h
  free_pointer h (some p) = release h p

  -- One `sipster_free` after the other.
  unfoldable pub release_all : List ℕ → Heap A → Exec (Heap A)
  release_all [] h = ok h
  release_all (p ∷ ps) h = do h' ← release h p; release_all ps h'
