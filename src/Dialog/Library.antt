-- ===== src/Dialog/Library.antt =====
-- The life of the library object: `sipster_init`, `sipster_deinit` and
-- `sipster_sip_call_leg_create_default` of src/sipster.cpp, with the memory they take and free. What
-- libuv returns is a parameter.
pub mod Ending
use sipster.Base.{ℕ, [], ◌∷◌, Option, none, some, Exec, ok, ◌>>=◌}
use sipster.Text.{ℤ, pos, negsuc}
use sipster.Memory.{Heap, allocate, release, free_pointer}
use sipster.Sip.Address.{zeroed}
use sipster.Sip.Inet.{InetAddress}
use sipster.Dialog.{CallLeg, Direction, inbound, TaggedLegs, CallIds}

-- The objects that the library allocates.
pub data Block : Type 0 where
  sipster_block loop_block socket_block : Block
  leg_block : CallLeg → Block

-- What the calls of libuv return in one run.
pub record Libuv : Type 0 where
  pub default_loop : Option ℕ
  pub udp_init : ℤ
  pub ip4_addr : ℤ
  pub udp_bind : ℤ
  pub recv_start : ℤ
  pub async_init : ℤ

-- The pointers of `struct _Sipster`, and its own address. The tables hold the addresses of the legs.
pub record Instance : Type 0 where
  pub self : ℕ
  pub loop : Option ℕ
  pub socket : Option ℕ
  pub legs : CallIds
  pub default_leg : Option ℕ

-- The status, `*sipsterPtr` and the memory.
abbrev pub Started : Type 0
Started = ℤ × Option Instance × Heap Block

-- The label `end_new_instance`.
end_new_instance : Heap Block → ℕ → Option ℕ → Exec Started
end_new_instance h self loop = do
  h1 ← release h self
  h2 ← free_pointer h1 loop
  ok (negsuc 0, none, h2)

-- `if(status) goto end_new_instance`.
after_check : ℤ → Exec Started → Exec Started → Exec Started
after_check (pos ℕ.zero) failed go_on = go_on
after_check _ failed go_on = failed

abbrev or_static : ℕ → Option ℕ → ℕ
or_static static_leg none = static_leg
or_static static_leg (some leg) = leg

-- Behind `uv_udp_init`.
listen : Libuv → Heap Block → Instance → Exec Started
unfolding end_new_instance after_check
listen uv h s =
    let (socket, h') = allocate h socket_block in
    let failed = end_new_instance h' s.self s.loop in
    after_check uv.ip4_addr failed (
      after_check uv.udp_bind failed (
        after_check uv.recv_start failed
          (ok (uv.async_init, some (record s { socket = some socket }), h'))))

-- `sipster_init` of a pointer that is NULL: the loop that it allocates first is replaced by the
-- default loop, and never freed.
start : Libuv → ℕ → Heap Block → Option ℕ → Exec Started
unfolding end_new_instance after_check listen
start uv static_leg h default_leg =
    let (self, h1) = allocate h sipster_block in
    let (unused, h2) = allocate h1 loop_block in
    let s : Instance = record {
      self = self;
      loop = uv.default_loop;
      socket = none;
      legs = [];
      default_leg = some (or_static static_leg default_leg);
    } in
    after_check uv.udp_init (end_new_instance h2 self uv.default_loop) (listen uv h2 s)

-- `sipster_init`, with `*sipsterPtr` and `defaultLeg`; `static_leg` is the address of
-- `staticDefaultLeg`.
unfoldable pub init : Libuv → ℕ → Heap Block → Option Instance → Option ℕ → Exec Started
unfolding start
init uv static_leg h (some s) default_leg = ok (negsuc 0, some s, h)
init uv static_leg h none default_leg = start uv static_leg h default_leg

free_legs : TaggedLegs → Heap Block → Exec (Heap Block)
free_legs [] h = ok h
free_legs ((tag, leg) ∷ ts) h = do h' ← release h leg; free_legs ts h'

free_tables : CallIds → Heap Block → Exec (Heap Block)
unfolding free_legs
free_tables [] h = ok h
free_tables ((call_id, ts) ∷ rest) h = do h' ← free_legs ts h; free_tables rest h'

-- `sipster_deinit`. The order of the maps, which is that of their keys, does not matter for what is
-- freed.
unfoldable pub deinit : Heap Block → Option Instance → Exec (Heap Block)
unfolding free_tables
deinit h none = ok h
deinit h (some s) = do
  h1 ← free_pointer h s.loop
  h2 ← free_pointer h1 s.default_leg
  h3 ← free_tables s.legs h2
  release h3 s.self

-- `sipster_sip_call_leg_create_default`: the direction is not used, and `memcpy` from `&peer` copies
-- the bytes of the pointer.
unfoldable pub call_leg_create_default :
    Heap Block → Direction → InetAddress → InetAddress → Option ℕ → Option ℕ → ℕ × Heap Block
call_leg_create_default h d local peer on_request on_response = allocate h (
    leg_block (record {
      direction = inbound;
      call_id = [];
      from = zeroed;
      from_tag = [];
      to = zeroed;
      to_tag = [];
      local_address = local;
      peer_address = none;
      request_handler = on_request;
      response_handler = on_response;
    }))
