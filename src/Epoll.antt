-- ===== src/Epoll.antt =====
-- The events of net/mgx_socket.cpp: epoll_oper_event and epoll_process_events. What epoll_ctl and
-- epoll_wait answer are arguments. Logging is left out.
pub mod Tag
pub mod Stale
mod Examples
use Prim.Native.Nat.{bit_and, bit_or}
use my_gx.Base.{
  ℕ, ◌+◌, ◌-◌, ◌*◌, ◌/◌, ◌%◌, ◌^◌, List, [], ◌∷◌, Bool, true, false, not, ◌||◌, Option, none, some,
  ◌==◌, if◌then◌else◌,
}
use my_gx.Conn.{Conn}

abbrev pub epoll_in : ℕ
epoll_in = 0x1

abbrev pub epoll_out : ℕ
epoll_out = 0x4

abbrev pub epoll_rdhup : ℕ
epoll_rdhup = 0x2000

-- EPOLL_CTL_ADD, EPOLL_CTL_DEL and EPOLL_CTL_MOD.
abbrev pub epoll_ctl_add : ℕ
epoll_ctl_add = 1

abbrev pub epoll_ctl_del : ℕ
epoll_ctl_del = 2

abbrev pub epoll_ctl_mod : ℕ
epoll_ctl_mod = 3

-- EPOLL_ES_MOD_ACTION
pub data EsModAction : Type 0 where
  full_coverage remove add ignore : EsModAction

-- struct epoll_event, its data a pointer.
pub record EpollEvent : Type 0 where
  pub events : ℕ
  pub ptr : ℕ

-- What epoll_ctl is called with.
pub record CtlCall : Type 0 where
  pub op : ℕ
  pub fd : Option ℕ
  pub event : EpollEvent

-- Where the connection with the number `c` stands in memory: `new` returns aligned addresses.
abbrev pub alignment : ℕ
alignment = 16

-- `(uintptr_t)c | c->instance`
unfoldable pub tagged : ℕ → Bool → ℕ
tagged c instance_bit = bit_or (alignment * c) (if instance_bit then 1 else 0)

-- `(uintptr_t)c & 1`, and the connection at `(uintptr_t)c & (uintptr_t) ~1`.
unfoldable pub tag_of : ℕ → ℕ
tag_of p = bit_and p 1

unfoldable pub conn_at : ℕ → ℕ
conn_at p = bit_and p (2 ^ 64 - 2) / alignment

-- `~es` on a uint32_t.
complement : ℕ → ℕ
complement es = 2 ^ 32 - 1 - es

-- The field `events` after EPOLL_CTL_MOD.
unfoldable pub mod_events : EsModAction → ℕ → ℕ → ℕ
unfolding complement
mod_events add es events = bit_or events es
mod_events remove es events = bit_and events (complement es)
mod_events full_coverage es events = es
mod_events ignore es events = events

-- What the switch makes of `c->events` and of `ev.events`; `none` is the early return.
unfoldable pub switch_events : ℕ → ℕ → EsModAction → ℕ → Option (ℕ × ℕ)
switch_events e_type es mod_action events =
    if e_type == epoll_ctl_add
    then some (es, es)
    else if e_type == epoll_ctl_mod
    then some (mod_events mod_action es events, mod_events mod_action es events)
    else if e_type == epoll_ctl_del
    then some (events, 0)
    else none

-- The rest of epoll_oper_event; `ctl_ok` says whether epoll_ctl succeeds.
unfoldable pub after_switch :
    Bool → Option ℕ → ℕ → ℕ → Conn → Option (ℕ × ℕ) → Bool × Conn × Option CtlCall
after_switch ctl_ok fd e_type a c none = (false, c, none)
after_switch ctl_ok fd e_type a c (some (events, told)) = (
  ctl_ok,
  record c { events = events },
  some (record {
    op = e_type;
    fd = fd;
    event = record { events = told; ptr = tagged a c.instance_bit };
  }),
)

-- epoll_oper_event for the connection `c` at `a`: the result, the connection, and the call.
unfoldable pub epoll_oper_event :
    Bool → Option ℕ → ℕ → ℕ → EsModAction → ℕ → Conn → Bool × Conn × Option CtlCall
unfolding switch_events after_switch
epoll_oper_event ctl_ok fd e_type es mod_action a c =
    after_switch ctl_ok fd e_type a c (switch_events e_type es mod_action c.events)

-- Whether `c->fd == -1`.
pub is_closed : Option ℕ → Bool
is_closed none = true
is_closed (some fd) = false

-- What epoll_wait answers: an error, which may be EINTR, or events.
pub data Wait : Type 0 where
  failed : Bool → Wait
  got : List EpollEvent → Wait

-- The loop works on a state that holds the connections, by the handlers that they have.
module _ {ℓ} {S : Type ℓ} (conn : S → ℕ → Conn) (r_handler w_handler : ℕ → S → S) where
  pub is_stale : ℕ → S → Bool
  unfolding is_closed tag_of conn_at
  is_stale p s =
      let c = conn s (conn_at p) in
      is_closed c.fd || not ((if c.instance_bit then 1 else 0) == tag_of p)

  pub run_handlers : ℕ → ℕ → S → S
  run_handlers c events s =
      let s' = if bit_and events epoll_in == 0 then s else r_handler c s in
      if bit_and events epoll_out == 0 then s' else w_handler c s'

  -- One round of the loop.
  pub process_event : EpollEvent → S → S
  unfolding is_stale run_handlers conn_at
  process_event ev s = if is_stale ev.ptr s then s else run_handlers (conn_at ev.ptr) ev.events s

  pub process_all : List EpollEvent → S → S
  unfolding process_event
  process_all [] s = s
  process_all (ev ∷ evs) s = process_all evs (process_event ev s)

  -- `endless` says whether the timeout is -1.
  pub epoll_process_events : Bool → Wait → S → Bool × S
  unfolding process_all
  epoll_process_events endless (failed is_eintr) s = (is_eintr, s)
  epoll_process_events endless (got []) s = (endless, s)
  epoll_process_events endless (got (ev ∷ evs)) s = (true, process_all (ev ∷ evs) s)
