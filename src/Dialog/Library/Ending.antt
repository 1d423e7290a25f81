-- ===== src/Dialog/Library/Ending.antt =====
-- What `sipster_deinit` frees, and that no run of the library comes through it.
use sipster.Base.{
  bind-cong, ℕ, ◌<◌, List, [], ◌∷◌, ◌++◌, Option, none, some, ◌≡◌, ◌⊎◌, ◌↔◌, inl, inr, refl, sym,
  ap, ◌∙◌, arith, Exec, ok, fault, bad_free, ◌>>=◌, All, zero, suc,
}
use sipster.Text.{ℤ, pos, negsuc}
use sipster.Memory.{Heap, allocate, release, free_pointer, release_all, update}
use sipster.Memory.Freeing.{
  pointer_list, release_all-append, release_all-one, free_pointer-list, IsLive, IsForeign, Without,
  Distinct, release_all-Without, release_all-Distinct, release-none, release-live,
}
use sipster.Dialog.{TaggedLegs, CallIds}
use sipster.Dialog.Library.{
  Block, sipster_block, loop_block, socket_block, Libuv, Instance, Started, end_new_instance,
  after_check, listen, or_static, start, init, free_legs, free_tables, deinit,
}

abbrev legs_of : TaggedLegs → List ℕ
legs_of [] = []
legs_of ((tag, leg) ∷ ts) = leg ∷ legs_of ts

abbrev all_legs : CallIds → List ℕ
all_legs [] = []
all_legs ((call_id, ts) ∷ rest) = legs_of ts ++ all_legs rest

-- The loop, the default leg, the legs of the tables, and the object itself.
abbrev pub blocks : Instance → List ℕ
blocks s = pointer_list s.loop ++ (pointer_list s.default_leg ++ (all_legs s.legs ++ s.self ∷ []))

free_legs-list : (ts : TaggedLegs) (h : Heap Block) → free_legs ts h ≡ release_all (legs_of ts) h
unfolding free_legs release_all
free_legs-list [] h = refl
free_legs-list ((tag, leg) ∷ ts) h = bind-cong (release h leg) _ _ (free_legs-list ts)

free_tables-list : (cs : CallIds) (h : Heap Block) → free_tables cs h ≡ release_all (all_legs cs) h
unfolding free_tables release_all
free_tables-list [] h = refl
free_tables-list ((call_id, ts) ∷ rest) h =
    bind-cong (free_legs ts h) _ _ (free_tables-list rest)
    ∙ ap (λ (m : Exec (Heap Block)). m >>= release_all (all_legs rest)) (free_legs-list ts h)
    ∙ sym (release_all-append (legs_of ts) (all_legs rest) h)

-- `sipster_deinit` is one free after the other.
deinit-blocks : (h : Heap Block) (s : Instance) → deinit h (some s) ≡ release_all (blocks s) h
unfolding deinit
deinit-blocks h s =
    let self = s.self ∷ [] in
    let tables = all_legs s.legs ++ self in
    let leg = pointer_list s.default_leg ++ tables in
    let last : (h2 : Heap Block)
        → (free_tables s.legs h2 >>= λ (h3 : Heap Block). release h3 s.self)
          ≡ release_all tables h2 =
      λ h2.
        bind-cong (free_tables s.legs h2) _ _ (λ h3. sym (release_all-one s.self h3))
        ∙ ap (λ (m : Exec (Heap Block)). m >>= release_all self) (free_tables-list s.legs h2)
        ∙ sym (release_all-append (all_legs s.legs) self h2) in
    let middle : (h1 : Heap Block)
        → (free_pointer h1 s.default_leg >>= λ (h2 : Heap Block).
            free_tables s.legs h2 >>= λ (h3 : Heap Block). release h3 s.self)
          ≡ release_all leg h1 =
      λ h1.
        bind-cong (free_pointer h1 s.default_leg) _ _ last
        ∙ ap (λ (m : Exec (Heap Block)). m >>= release_all tables)
            (free_pointer-list s.default_leg h1)
        ∙ sym (release_all-append (pointer_list s.default_leg) tables h1) in
    bind-cong (free_pointer h s.loop) _ _ middle
    ∙ ap (λ (m : Exec (Heap Block)). m >>= release_all leg) (free_pointer-list s.loop h)
    ∙ sym (release_all-append (pointer_list s.loop) leg h)

-- `sipster_deinit` comes through if and only if the loop, the default leg, the legs of the tables and
-- the object are allocated and no two of them are the same; it then frees exactly these.
pub deinit_iff :
    (h : Heap Block) (s : Instance)
    → ((g : Heap Block) × (deinit h (some s) ≡ ok g) × Without (blocks s) h g)
      ↔ (Distinct (blocks s) × All (IsLive h) (blocks s))
deinit_iff h s = (
  λ (g, e, v). release_all-Distinct (blocks s) h (sym (deinit-blocks h s) ∙ e),
  λ (d, w).
      let (g, e, n, v) = release_all-Without (blocks s) h d w in (g, deinit-blocks h s ∙ e, v),
)

-- libuv gives a default loop, at an address where the program has allocated nothing.
pub record IsOwned (uv : Libuv) (h : Heap Block) : Type 0 where
  pub loop_address : ℕ
  pub given : uv.default_loop ≡ some loop_address
  pub foreign : IsForeign h loop_address

abbrev IsOwn : Heap Block → ℕ → Type 0
IsOwn h p = IsLive h p × (p < h.next)

IsForeign-allocate :
    (h : Heap Block) (b : Block) (p : ℕ) → IsForeign h p → IsForeign (allocate h b).1 p
unfolding allocate
IsForeign-allocate h b p v = (omega (arith, v.0), ground arith)

IsOwn-allocate : (h : Heap Block) (b : Block) (p : ℕ) → IsOwn h p → IsOwn (allocate h b).1 p
unfolding allocate
IsOwn-allocate h b p ((c, e), small) = ((c, ground arith), omega (arith, small))

IsOwn-new : (h : Heap Block) (b : Block) → IsOwn (allocate h b).1 (allocate h b).0
unfolding allocate
IsOwn-new h b = ((b, ground arith), omega arith)

end_new_instance-faults :
    (h : Heap Block) (self p : ℕ)
    → IsOwn h self
    → IsForeign h p
    → end_new_instance h self (some p) ≡ fault bad_free
unfolding end_new_instance free_pointer
end_new_instance-faults h self p own v =
    let gone : (update h self none).cell p ≡ none = ground (arith, v.1) in
    rw (release-live h self own.0, release-none (update h self none) p gone) refl

after_check-cases :
    (status : ℤ) (failed go_on : Exec Started)
    → (after_check status failed go_on ≡ failed) ⊎ (after_check status failed go_on ≡ go_on)
unfolding after_check
after_check-cases (pos zero) failed go_on = inr refl
after_check-cases (pos (suc n)) failed go_on = inl refl
after_check-cases (negsuc n) failed go_on = inl refl

-- A start fails with the free of what is not the program's, or gives an object with that loop.
abbrev Faults : Exec Started → Type 0
Faults m =
    (m ≡ fault bad_free)
    ⊎ ((status : ℤ) × (s : Instance) × (h' : Heap Block) × (m ≡ ok (status, some s, h'))
        × (deinit h' (some s) ≡ fault bad_free))

after_check-Faults :
    (status : ℤ) (failed go_on : Exec Started)
    → Faults failed
    → Faults go_on
    → Faults (after_check status failed go_on)
after_check-Faults status failed go_on v w = elim (after_check-cases status failed go_on) [
  | inl e ↦ rw e v
  | inr e ↦ rw e w
]

listen-Faults :
    (uv : Libuv) (h : Heap Block) (s : Instance) (p : ℕ)
    → s.loop ≡ some p
    → IsOwn h s.self
    → IsForeign h p
    → Faults (listen uv h s)
unfolding listen deinit free_pointer
listen-Faults uv h s p e own v =
    let h' = (allocate h socket_block).1 in
    let v' = IsForeign-allocate h socket_block p v in
    let failed : Faults (end_new_instance h' s.self s.loop) =
      inl (
        rw e (end_new_instance-faults h' s.self p (IsOwn-allocate h socket_block s.self own) v')) in
    let made : Faults
        (ok (uv.async_init, some (record s { socket = some (allocate h socket_block).0 }), h')) =
      inr (_, _, _, refl, rw (e, release-none h' p v'.1) refl) in
    after_check-Faults uv.ip4_addr _ _ failed
      (after_check-Faults uv.udp_bind _ _ failed (after_check-Faults uv.recv_start _ _ failed made))

-- No run of the library comes through: where libuv's default loop was not allocated by the program,
-- `sipster_init` of a NULL pointer either frees it, since a call of libuv failed, or gives an object
-- that `sipster_deinit` cannot free without freeing that loop.
pub init-deinit_faults :
    (uv : Libuv) (static_leg : ℕ) (h : Heap Block) (default_leg : Option ℕ)
    → IsOwned uv h
    → (init uv static_leg h none default_leg ≡ fault bad_free)
      ⊎ ((status : ℤ) × (s : Instance) × (h' : Heap Block) × (init uv static_leg h none default_leg
            ≡ ok (status, some s, h'))
          × (deinit h' (some s) ≡ fault bad_free))
unfolding init start deinit free_pointer
init-deinit_faults uv static_leg h default_leg v =
    let (self, h1) = allocate h sipster_block in
    let (unused, h2) = allocate h1 loop_block in
    let s : Instance = record {
      self = self;
      loop = some v.loop_address;
      socket = none;
      legs = [];
      default_leg = some (or_static static_leg default_leg);
    } in
    let foreign =
      IsForeign-allocate h1 loop_block v.loop_address
        (IsForeign-allocate h sipster_block v.loop_address v.foreign) in
    let own = IsOwn-allocate h1 loop_block self (IsOwn-new h sipster_block) in
    rw (v.given)
      (elim (after_check-cases uv.udp_init (end_new_instance h2 self (some v.loop_address))
        (listen uv h2 s)) [
          | inl e ↦ inl (e ∙ end_new_instance-faults h2 self v.loop_address own foreign)
          | inr e ↦ rw e (listen-Faults uv h2 s v.loop_address refl own foreign)
        ])
