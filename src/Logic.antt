-- ===== src/Logic.antt =====
-- The dispatch of messages: bussiness/mgx_logic_socket.cpp, and send_msg of net/mgx_socket.cpp. A
-- message is as the read handlers made it, so its package has at least a header. Logging is left out.
pub mod Drop
pub mod Reply
mod Examples
use my_gx.Base.{
  ℕ, zero, suc, ◌+◌, ◌-◌, ◌*◌, ◌/◌, ◌%◌, ◌^◌, List, [], ◌∷◌, ◌++◌, Bool, true, false, not, Option,
  none, some, take, drop, replicate, length, get_or, codes, leb, ◌==◌, if◌then◌else◌,
}
use my_gx.Conn.{Conn, MsgBuf, pkg_hdr_size}
use my_gx.Receive.{pkg_size}
use my_gx.Crc.{get_crc32}
use my_gx.Pool.{store}

-- What the dispatch works on: the connections, and the queue of the sending thread.
pub record Server : Type 0 where
  pub conn : ℕ → Conn
  pub m_send_list : List MsgBuf
  pub m_send_list_cnt : ℕ
  -- The value of m_send_queue_sem.
  pub send_tokens : ℕ

-- The other fields of mgx_pkg_hdr_t, and what stands behind the header.
pub pkg_type : List ℕ → ℕ
pkg_type pkg = get_or pkg 2 0 + 256 * get_or pkg 3 0

pub pkg_crc32 : List ℕ → ℕ
pkg_crc32 pkg =
    get_or pkg 4 0 + 256 * get_or pkg 5 0 + 65536 * get_or pkg 6 0 + 16777216 * get_or pkg 7 0

pub pkg_body : List ℕ → List ℕ
pkg_body pkg = take (pkg_size pkg - pkg_hdr_size) (drop pkg_hdr_size pkg)

-- A package header in memory, from the values that its three fields are given.
pub pkg_hdr : ℕ → ℕ → ℕ → List ℕ
pkg_hdr size type crc =
    size % 256
    ∷ size / 256 % 256
    ∷ type % 256
    ∷ type / 256 % 256
    ∷ crc % 256
    ∷ crc / 256 % 256
    ∷ crc / 65536 % 256
    ∷ crc / 16777216 % 256
    ∷ []

pub send_msg : MsgBuf → Server → Server
send_msg buf s = record s {
  m_send_list = s.m_send_list ++ buf ∷ [];
  m_send_list_cnt = s.m_send_list_cnt + 1;
  send_tokens = s.send_tokens + 1;
}

pub send_msg_with_nobody : MsgBuf → ℕ → Server → Server
unfolding send_msg pkg_hdr
send_msg_with_nobody m type s =
    send_msg (record { pconn = m.pconn; cur_seq = m.cur_seq; bytes = pkg_hdr pkg_hdr_size type 0 })
      s

-- `time(nullptr)` is the argument `now`.
pub ping_handler : ℕ → MsgBuf → ℕ → Server → Bool × Server
unfolding send_msg_with_nobody
ping_handler now m pkg_body_size s = if not (pkg_body_size == 0) then (false, s) else (
  true,
  send_msg_with_nobody m 0
      (record s { conn = store m.pconn (record (s.conn m.pconn) { last_ping_time = now }) s.conn }),
)

-- `char send_pkg_body[65000] = "register succeed";`
pub send_pkg_body : List ℕ
send_pkg_body = codes "register succeed" ++ replicate 64984 0

pub register_handler : MsgBuf → Server → Bool × Server
unfolding send_msg pkg_hdr send_pkg_body
register_handler m s = (
  true,
  send_msg
      (record {
        pconn = m.pconn;
        cur_seq = m.cur_seq;
        bytes = pkg_hdr (pkg_hdr_size + 65000) 1 (get_crc32 send_pkg_body) ++ send_pkg_body;
      })
      s,
)

-- It only logs.
pub login_handler : Server → Bool × Server
login_handler s = (true, s)

pub data Handler : Type 0 where
  ping register login : Handler

-- The table pkg_handlers; `none` is nullptr.
pub pkg_handlers : List (Option Handler)
pkg_handlers = some ping ∷ some register ∷ some login ∷ none ∷ []

-- The call through the table, after the test for nullptr; its result is not used.
pub call_handler : Option Handler → ℕ → MsgBuf → ℕ → Server → Server
call_handler none now m pkg_body_size s = s
call_handler (some ping) now m pkg_body_size s = (ping_handler now m pkg_body_size s).1
call_handler (some register) now m pkg_body_size s = (register_handler m s).1
call_handler (some login) now m pkg_body_size s = (login_handler s).1

-- The first test of th_msg_process_func: whether the checksum is not as it should be.
pub has_bad_crc : List ℕ → Bool
unfolding pkg_crc32 pkg_body
has_bad_crc pkg =
    if pkg_size pkg == pkg_hdr_size
    then not (pkg_crc32 pkg == 0)
    else not (get_crc32 (pkg_body pkg) == pkg_crc32 pkg)

pub th_msg_process_func : ℕ → MsgBuf → Server → Server
th_msg_process_func now m s =
    let type = pkg_type m.bytes in
    if has_bad_crc m.bytes
    then s
    else if not ((s.conn m.pconn).m_cur_seq == m.cur_seq)
    then s
    else if leb (length pkg_handlers) type
    then s
    else call_handler (get_or pkg_handlers type none) now m (pkg_size m.bytes - pkg_hdr_size) s
