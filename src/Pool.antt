-- ===== src/Pool.antt =====
-- The connection pool of net/mgx_socket_conn.cpp. A pointer is an address, a number; `conn` is the
-- store of connections. The atomic counters are numbers, and `closed` records the descriptors that
-- close was called with. `time(nullptr)` is the argument `now` of each call.
pub mod Inv
pub mod Step
pub mod Seq
pub mod Recovery
pub mod Kept
pub mod Fields
mod Examples
use my_gx.Base.{
  ℕ, zero, suc, ◌+◌, ◌-◌, ◌≤◌, ◌<◌, List, [], ◌∷◌, ◌++◌, Bool, true, false, not, Option, none, some,
  replicate, ltb, leb, ◌==◌, ◌||◌, if◌then◌else◌, ◌≡◌,
}
use my_gx.Conn.{
  Conn, MsgBuf, RecvStat, RecvPtr, get_one_to_use, put_one_to_free, next_seq, pkg_hdr_buf_size,
}
use my_gx.Timer.{TimerQueue, delete_from_timer_queue}

pub record Pool : Type 0 where
  pub conn : ℕ → Conn
  -- The address that the next `new mgx_conn_t()` returns.
  pub next : ℕ
  pub pconns_queue : List ℕ
  pub pconns_free_queue : List ℕ
  -- An unordered set, as a list without repetitions.
  pub recy_conn_set : List ℕ
  pub total_conns_cnt : ℕ
  pub free_conns_cnt : ℕ
  pub total_recy_conns_cnt : ℕ
  pub recy_conn_wait_time : ℕ
  pub enabled_heartbeat : Bool
  pub timers : TimerQueue
  pub closed : List (Option ℕ)

-- `new mgx_conn_t()` sets every field to zero.
unfoldable pub blank : Conn
blank = record {
  fd = some 0;
  instance_bit = false;
  m_cur_seq = 0;
  events = 0;
  recv_stat = RecvStat.hdr_start;
  hdr_buf = replicate pkg_hdr_buf_size 0;
  precv_buf = RecvPtr.in_hdr 0;
  rest_recv_size = 0;
  precv_mem_addr = none;
  psend_buf = 0;
  rest_send_size = 0;
  psend_mem_addr = none;
  throw_send_cnt = 0;
  in_recy_time = 0;
  last_ping_time = 0;
}

abbrev pub store : ℕ → Conn → (ℕ → Conn) → ℕ → Conn
store a c f b = if b == a then c else f b

-- `pconn = new mgx_conn_t(); pconn->get_one_to_use(); m_pconns_queue.push(pconn);`
pub new_conn : ℕ → Pool → Pool
new_conn now p = record p {
  conn = store p.next (get_one_to_use now blank) p.conn;
  next = p.next + 1;
  pconns_queue = p.pconns_queue ++ p.next ∷ [];
}

-- The loop of conn_pool_init, by the rounds left.
pub fill_pool : ℕ → ℕ → Pool → Pool
unfolding new_conn
fill_pool zero now p = p
fill_pool (suc left) now p =
    let p' = new_conn now p in
    fill_pool left now (record p' { pconns_free_queue = p'.pconns_free_queue ++ p.next ∷ [] })

pub conn_pool_init : ℕ → ℕ → Pool → Pool
unfolding fill_pool
conn_pool_init worker_conns now p = record (fill_pool worker_conns now p) {
  free_conns_cnt = worker_conns;
  total_conns_cnt = worker_conns;
}

-- The first branch of get_conn; `none` stands for front() on an empty queue.
reuse_conn : ℕ → ℕ → List ℕ → Pool → Option (ℕ × Pool)
reuse_conn now sock_fd [] p = none
reuse_conn now sock_fd (c ∷ rest) p =
    let used = get_one_to_use now (p.conn c) in
    some (
      c,
      record p {
        pconns_free_queue = rest;
        free_conns_cnt = p.free_conns_cnt - 1;
        conn =
            store c (record used { fd = some sock_fd; instance_bit = not used.instance_bit })
              p.conn;
      },
    )

-- get_conn: the address of the connection.
pub get_conn : ℕ → ℕ → Pool → Option (ℕ × Pool)
unfolding reuse_conn new_conn
get_conn now sock_fd p =
    if ltb 0 p.free_conns_cnt
    then reuse_conn now sock_fd p.pconns_free_queue p
    else (let p' = new_conn now p in
        some (
          p.next,
          record p' {
            total_conns_cnt = p.total_conns_cnt + 1;
            conn = store p.next (record (p'.conn p.next) { fd = some sock_fd }) p'.conn;
          },
        ))

pub free_conn : ℕ → Pool → Pool
free_conn c p = record p {
  conn = store c (put_one_to_free (p.conn c)) p.conn;
  pconns_free_queue = p.pconns_free_queue ++ c ∷ [];
  free_conns_cnt = p.free_conns_cnt + 1;
}

-- `find(c) != end()`
pub contains : ℕ → List ℕ → Bool
contains c [] = false
contains c (d ∷ s) = c == d || contains c s

-- close(c->fd), whose result is only logged.
pub close_fd : ℕ → Pool → Pool
close_fd c p = record p { closed = (p.conn c).fd ∷ p.closed }

-- Delayed recovery.
pub insert_recy_conn_queue : ℕ → ℕ → Pool → Pool
unfolding close_fd contains
insert_recy_conn_queue now c p =
    let q = close_fd c (record p {
      timers = if p.enabled_heartbeat then delete_from_timer_queue c p.timers else p.timers;
    }) in
    if contains c q.recy_conn_set then q else record q {
      conn =
          store c
            (record (q.conn c) { in_recy_time = now; m_cur_seq = next_seq (q.conn c).m_cur_seq })
            q.conn;
      recy_conn_set = c ∷ q.recy_conn_set;
      total_recy_conns_cnt = q.total_recy_conns_cnt + 1;
    }

-- Immediate recovery.
pub close_conn : ℕ → Pool → Pool
unfolding close_fd free_conn
close_conn c p = free_conn c (close_fd c p)

pub erase : ℕ → List ℕ → List ℕ
erase c [] = []
erase c (d ∷ s) = if c == d then s else d ∷ erase c s

-- The guarded part of the inner loop of recy_conn_th_func.
pub reclaim : ℕ → Pool → Pool
unfolding free_conn erase
reclaim c p = free_conn c (record p {
  total_recy_conns_cnt = p.total_recy_conns_cnt - 1;
  recy_conn_set = erase c p.recy_conn_set;
})

pub is_over : ℕ → ℕ → Pool → Bool
is_over cur c p = leb ((p.conn c).in_recy_time + p.recy_conn_wait_time) cur

-- One round of the inner loop of recy_conn_th_func, with the connections that the iterator has before it: it
-- moves on only by erasing, so a connection whose time has not come is looked at again.
pub recy_round : ℕ → List ℕ → Pool → List ℕ × Pool
unfolding reclaim is_over
recy_round cur [] p = ([], p)
recy_round cur (c ∷ todo) p = if is_over cur c p then (todo, reclaim c p) else (c ∷ todo, p)

-- The inner loop; `clock i` is the time read in round i.
pub recy_loop : ℕ → (ℕ → ℕ) → ℕ → List ℕ → Pool → List ℕ × Pool
unfolding recy_round
recy_loop zero clock i todo p = (todo, p)
recy_loop (suc fuel) clock i todo p =
    let (todo', p') = recy_round (clock i) todo p in recy_loop fuel clock (i + 1) todo' p'
