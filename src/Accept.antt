-- ===== src/Accept.antt =====
-- The accept handler, event_accept of net/mgx_socket_accept.cpp, and the loop of epoll_init in
-- net/mgx_socket.cpp that gives every listening socket a connection. What the system calls answer is
-- an argument. get_conn never returns nullptr, so the branch for that is left out; logging is too.
pub mod Sound
pub mod Listening
mod Examples
use my_gx.Base.{
  ℕ, ◌+◌, List, [], ◌∷◌, ◌++◌, Bool, true, false, Option, none, some, ◌==◌, ◌&&◌, if◌then◌else◌,
  ◌>>=◌,
}
use my_gx.Conn.{Conn}
use my_gx.Timer.{Timer, add_to_timer_queue}
use my_gx.Pool.{Pool, store, get_conn, close_conn}
use my_gx.Epoll.{
  CtlCall, EsModAction, ignore, epoll_oper_event, epoll_ctl_add, epoll_in, epoll_rdhup,
}

-- The errors that the handler tells apart.
pub data AcceptError : Type 0 where
  eagain enosys other : AcceptError

pub data AcceptAnswer : Type 0 where
  conn_fd : ℕ → AcceptAnswer
  failed : AcceptError → AcceptAnswer

pub record Net : Type 0 where
  pub pool : Pool
  -- The static variable of event_accept.
  pub use_accept4 : Bool
  -- The descriptors made nonblocking, by SOCK_NONBLOCK or set_nonblock.
  pub nonblock : List ℕ
  pub ctl_calls : List (Option CtlCall)

-- The calls up to `retry`, by the answers of accept4 and accept: the answer, and use_accept4.
unfoldable pub accept_retry : Bool → AcceptAnswer → AcceptAnswer → AcceptAnswer × Bool
accept_retry false answer4 answer = (answer, false)
accept_retry true (conn_fd fd) answer = (conn_fd fd, true)
accept_retry true (failed eagain) answer = (failed eagain, true)
accept_retry true (failed enosys) answer = (answer, false)
accept_retry true (failed other) answer = (failed other, true)

-- epoll_oper_event with EPOLL_CTL_ADD for reading: whether it succeeds, and the state.
unfoldable pub add_to_epoll : Bool → ℕ → ℕ → Net → Bool × Net
add_to_epoll ctl_ok fd c s =
    let r =
      epoll_oper_event ctl_ok (some fd) epoll_ctl_add (epoll_in + epoll_rdhup) ignore c
        (s.pool.conn c) in
    (
      r.0,
      record s {
        pool = record (s.pool) { conn = store c r.1 s.pool.conn };
        ctl_calls = r.2 ∷ s.ctl_calls;
      },
    )

-- The timer of a new connection.
unfoldable pub start_timer : ℕ → ℕ → ℕ → Pool → Pool
start_timer now wait c p = record p {
  timers =
      if p.enabled_heartbeat
      then add_to_timer_queue now wait (record { pconn = c; cur_seq = (p.conn c).m_cur_seq })
          p.timers
      else p.timers;
}

-- The rest of event_accept once the connection `c` is there.
unfoldable pub set_up : ℕ → ℕ → Bool → ℕ → ℕ → Net → Net
unfolding add_to_epoll start_timer
set_up now wait ctl_ok fd c s =
    let (added, t) = add_to_epoll ctl_ok fd c (record s { nonblock = fd ∷ s.nonblock }) in
    if added
    then record t { pool = start_timer now wait c t.pool }
    else record t { pool = close_conn c t.pool }

unfoldable pub with_conn : ℕ → ℕ → Bool → ℕ → Option (ℕ × Pool) → Net → Option Net
unfolding set_up
with_conn now wait ctl_ok fd none s = none
with_conn now wait ctl_ok fd (some (c, p)) s =
    some (set_up now wait ctl_ok fd c (record s { pool = p }))

unfoldable pub after_accept : ℕ → ℕ → Bool → AcceptAnswer → Net → Option Net
unfolding with_conn
after_accept now wait ctl_ok (failed e) s = some s
after_accept now wait ctl_ok (conn_fd fd) s =
    with_conn now wait ctl_ok fd (get_conn now fd s.pool) s

-- event_accept at the time `now`, with m_heart_wait_time `wait`; `none` is front() of an empty
-- queue in get_conn.
unfoldable pub event_accept : ℕ → ℕ → AcceptAnswer → AcceptAnswer → Bool → Net → Option Net
unfolding accept_retry after_accept
event_accept now wait answer4 answer ctl_ok s =
    let (got, use_accept4) = accept_retry s.use_accept4 answer4 answer in
    after_accept now wait ctl_ok got (record s { use_accept4 = use_accept4 })

-- The loop of epoll_init over the descriptors of m_listen_skts, with the answers of epoll_ctl; it
-- ends where epoll_ctl fails.
unfoldable pub listen_conn : ℕ → Bool → ℕ → Option (ℕ × Pool) → Net → Option (Bool × Net)
unfolding add_to_epoll
listen_conn now ctl_ok fd none s = none
listen_conn now ctl_ok fd (some (c, p)) s =
    let (added, t) = add_to_epoll ctl_ok fd c (record s { pool = p }) in
    if added then some (true, t) else some (false, record t { pool = close_conn c t.pool })

unfoldable pub add_listen_skts : ℕ → (ℕ → Bool) → List ℕ → Net → Option Net
unfolding listen_conn
add_listen_skts now ctl_ok [] s = some s
add_listen_skts now ctl_ok (fd ∷ fds) s = do
  r ← listen_conn now (ctl_ok fd) fd (get_conn now fd s.pool) s
  if r.0 then add_listen_skts now ctl_ok fds r.1 else some r.1
