-- ===== src/Listen.antt =====
-- The configuration of the network and the listening sockets: read_conf, open_listen_skts and
-- close_listen_skts of net/mgx_socket.cpp. What the system calls answer is an argument; `none` is an
-- exception of get_int. Logging is left out.
pub mod Leaks
pub mod Times
mod Examples
use my_gx.Base.{
  ℕ, zero, suc, ◌+◌, List, [], ◌∷◌, ◌++◌, Bool, true, false, Option, none, some, leb, if◌then◌else◌,
  ◌>>=◌, codes,
}
use my_gx.Conf.{Configs, ℤ, pos, negsuc, get_int}
use my_gx.Printf.{number_digits}

-- The fields that read_conf sets.
pub record NetConf : Type 0 where
  pub m_listen_cnt : ℤ
  pub m_worker_conns : ℤ
  pub m_recy_conn_wait_time : ℤ
  pub m_enabled_heartbeat : ℤ
  pub m_heart_wait_time : ℤ

-- `n <= 5 ? 5 : n`
unfoldable pub at_least_five : ℤ → ℤ
at_least_five (pos n) = if leb n 5 then pos 5 else pos n
at_least_five (negsuc n) = pos 5

unfoldable pub read_conf : Configs → Option NetConf
unfolding at_least_five
read_conf configs = do
  listen_cnt ← get_int (codes "ListenPortCount") (pos 1) configs
  worker_conns ← get_int (codes "WorkerConnections") (pos 1024) configs
  recy ← get_int (codes "RecyConnectionWaitTime") (pos 80) configs
  heartbeat ← get_int (codes "Heartbeat") (pos 0) configs
  wait ← get_int (codes "HeartWaitTime") (pos 30) configs
  some (record {
    m_listen_cnt = listen_cnt;
    m_worker_conns = worker_conns;
    m_recy_conn_wait_time = recy;
    m_enabled_heartbeat = heartbeat;
    m_heart_wait_time = at_least_five wait;
  })

pub record ListenSkt : Type 0 where
  pub port : ℤ
  pub fd : ℕ

-- What the calls of one round answer: the descriptor of socket, and whether the others succeed.
-- SO_REUSEPORT may fail, which is only logged.
pub record Calls : Type 0 where
  pub socket : Option ℕ
  pub reuse_addr : Bool
  pub bind : Bool
  pub listen : Bool

-- The descriptors that socket returned, and those closed again.
pub record Sockets : Type 0 where
  pub m_listen_skts : List ListenSkt
  pub opened : List ℕ
  pub closed : List ℕ

-- `close(listenfd); return false;`
unfoldable pub give_up : ℕ → Sockets → Bool × Sockets
give_up fd s = (false, record s { closed = s.closed ++ (fd ∷ []) })

-- bind, listen and push_back, with the port.
unfoldable pub bind_listen : Calls → ℕ → ℤ → Sockets → Bool × Sockets
unfolding give_up
bind_listen calls fd listen_port s =
    if calls.bind
    then (if calls.listen
        then (
          true,
          record s {
            m_listen_skts = s.m_listen_skts ++ ((record { port = listen_port; fd = fd }) ∷ []);
          },
        )
        else give_up fd s)
    else give_up fd s

-- CONFIG_ListenPort with the number of the round, and the port that stands there.
unfoldable pub port_of : ℕ → Configs → Option ℤ
port_of i configs = get_int (codes "ListenPort" ++ number_digits i 0) (pos 100000) configs

unfoldable pub with_socket : Calls → ℕ → Option ℕ → Configs → Sockets → Option (Bool × Sockets)
unfolding bind_listen give_up
with_socket calls i none configs s = some (false, s)
with_socket calls i (some fd) configs s =
    let s' = record s { opened = s.opened ++ (fd ∷ []) } in
    if calls.reuse_addr
    then (do listen_port ← port_of i configs; some (bind_listen calls fd listen_port s'))
    else some (give_up fd s')

-- The loop, by the rounds left, from round i on; `calls i` is what the calls of round i answer.
unfoldable pub open_from : ℕ → ℕ → (ℕ → Calls) → Configs → Sockets → Option (Bool × Sockets)
unfolding with_socket
open_from zero i calls configs s = some (true, s)
open_from (suc left) i calls configs s = do
  r ← with_socket (calls i) i (calls i).socket configs s
  if r.0 then open_from left (i + 1) calls configs r.1 else some r

-- `i < m_listen_cnt` with an int.
unfoldable pub rounds : ℤ → ℕ
rounds (pos n) = n
rounds (negsuc n) = 0

unfoldable pub open_listen_skts :
    NetConf → (ℕ → Calls) → Configs → Sockets → Option (Bool × Sockets)
unfolding open_from rounds
open_listen_skts conf calls configs s = open_from (rounds conf.m_listen_cnt) 0 calls configs s

-- The descriptors that close_listen_skts closes.
unfoldable pub fds : List ListenSkt → List ℕ
fds [] = []
fds (skt ∷ skts) = skt.fd ∷ fds skts

unfoldable pub close_listen_skts : Sockets → Sockets
unfolding fds
close_listen_skts s = record s { closed = s.closed ++ fds s.m_listen_skts }
