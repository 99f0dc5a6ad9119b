-- ===== src/Conn.antt =====
-- A connection and the messages that name it: struct _mgx_conn and mgx_msg_hdr_t of
-- include/mgx_socket.h, the sizes of include/mgx_comm.h, and the two methods of a connection in
-- net/mgx_socket_conn.cpp. A pointer to a connection is its address, a number.
use my_gx.Base.{ℕ, ◌+◌, ◌%◌, ◌^◌, Bool, List, Option, none}

-- sizeof(mgx_pkg_hdr_t), packed: two unsigned shorts and an unsigned int.
abbrev pub pkg_hdr_size : ℕ
pkg_hdr_size = 8

abbrev pub pkg_hdr_buf_size : ℕ
pkg_hdr_buf_size = 20

abbrev pub pkg_max_size : ℕ
pkg_max_size = 30000

-- The receive status, PKG_HDR_START to PKG_BODY_RECEIVING.
pub data RecvStat : Type 0 where
  hdr_start hdr_receiving body_start body_receiving : RecvStat

-- What a message buffer holds: its mgx_msg_hdr_t, and the bytes behind it.
pub record MsgBuf : Type 0 where
  pub pconn : ℕ
  pub cur_seq : ℕ
  pub bytes : List ℕ

-- precv_buf points into hdr_buf, or into the package part of the buffer at precv_mem_addr.
pub data RecvPtr : Type 0 where
  in_hdr : ℕ → RecvPtr
  in_msg : ℕ → RecvPtr

pub record Conn : Type 0 where
  -- -1 is `none`.
  pub fd : Option ℕ
  -- The one-bit field `instance`.
  pub instance_bit : Bool
  pub m_cur_seq : ℕ
  pub events : ℕ
  pub recv_stat : RecvStat
  pub hdr_buf : List ℕ
  pub precv_buf : RecvPtr
  pub rest_recv_size : ℕ
  pub precv_mem_addr : Option MsgBuf
  -- psend_buf, as an offset into the buffer that psend_mem_addr points to.
  pub psend_buf : ℕ
  pub rest_send_size : ℕ
  pub psend_mem_addr : Option MsgBuf
  pub throw_send_cnt : ℕ
  pub in_recy_time : ℕ
  pub last_ping_time : ℕ

-- `m_cur_seq++` on a uint64_t.
abbrev pub next_seq : ℕ → ℕ
next_seq s = (s + 1) % 2 ^ 64

-- `time(nullptr)` is the argument `now`.
unfoldable pub get_one_to_use : ℕ → Conn → Conn
get_one_to_use now c = record c {
  m_cur_seq = next_seq c.m_cur_seq;
  recv_stat = RecvStat.hdr_start;
  precv_buf = RecvPtr.in_hdr 0;
  rest_recv_size = pkg_hdr_size;
  precv_mem_addr = none;
  psend_mem_addr = none;
  throw_send_cnt = 0;
  last_ping_time = now;
}

-- Both buffers that may still be held are deleted.
unfoldable pub put_one_to_free : Conn → Conn
put_one_to_free c = record c {
  m_cur_seq = next_seq c.m_cur_seq;
  fd = none;
  precv_mem_addr = none;
  psend_mem_addr = none;
}
