-- ===== src/Receive.antt =====
-- The receiving state machine of a connection: net/mgx_socket_request.cpp. What one recv call
-- returned is an argument of the handler; a host with little-endian words is assumed, as the code
-- reads the header's fields straight from the received bytes.
pub mod Frames
pub mod State
pub mod Header
pub mod HdrStep
pub mod BodyStep
pub mod Refine
mod Examples
use my_gx.Base.{
  ℕ, zero, suc, ◌+◌, ◌-◌, ◌*◌, List, [], ◌∷◌, ◌++◌, Option, none, some, take, length, write_at,
  replicate, get_or, ltb, ◌==◌, ◌||◌, if◌then◌else◌,
}
use my_gx.Conn.{
  Conn, MsgBuf, RecvStat, RecvPtr, in_hdr, in_msg, hdr_start, hdr_receiving, body_start,
  body_receiving, pkg_hdr_size, pkg_max_size,
}

-- The unsigned short pkg_size at the start of a package header.
unfoldable pub pkg_size : List ℕ → ℕ
pkg_size hdr = get_or hdr 0 0 + 256 * get_or hdr 1 0

-- recv stores `chunk` where precv_buf points.
store_chunk : List ℕ → Conn → Conn
store_chunk chunk c = elim c.precv_buf [
  | in_hdr at ↦ record c { hdr_buf = write_at c.hdr_buf at chunk }
  | in_msg at ↦ elim c.precv_mem_addr [
    | none ↦ c
    | some m ↦ record c { precv_mem_addr = some (record m { bytes = write_at m.bytes at chunk }) }
  ]
]

-- `c->precv_buf += n`
abbrev advance : ℕ → RecvPtr → RecvPtr
advance n (in_hdr at) = in_hdr (at + n)
advance n (in_msg at) = in_msg (at + n)

-- The initial receiving state, as the handlers restore it.
pub restart : Conn → Conn
restart c = record c { recv_stat = hdr_start; precv_buf = in_hdr 0; rest_recv_size = pkg_hdr_size }

-- read_request_handler_process_v2: the message that goes to the thread pool, and the new state.
pub process_v2 : Conn → Conn × Option MsgBuf
unfolding restart
process_v2 c = (restart (record c { precv_mem_addr = none }), c.precv_mem_addr)

-- `c->precv_buf += recv_size; c->rest_recv_size -= recv_size;`
await : ℕ → RecvStat → Conn → Conn × Option MsgBuf
await n stat c = (
  record c {
    recv_stat = stat;
    precv_buf = advance n c.precv_buf;
    rest_recv_size = c.rest_recv_size - n;
  },
  none,
)

-- The messages of two steps.
abbrev pub with_first {ℓ} : {A : Type ℓ} → Option A → List A → List A
with_first none xs = xs
with_first (some x) xs = x ∷ xs

module _ (garbage : ℕ) where
  -- read_request_handler_process_v1, called with the address of the connection. A new buffer holds
  -- `garbage` until it is written.
  pub process_v1 : ℕ → Conn → Conn × Option MsgBuf
  unfolding restart process_v2 pkg_size
  process_v1 addr c =
      let size = pkg_size c.hdr_buf in
      let hdr = take pkg_hdr_size c.hdr_buf in
      let msg : MsgBuf = record {
        pconn = addr;
        cur_seq = c.m_cur_seq;
        bytes = write_at (replicate size garbage) 0 hdr;
      } in
      let c' = record c { precv_mem_addr = some msg } in
      if ltb size pkg_hdr_size || ltb (pkg_max_size - 1000) size
      then (restart c, none)
      else if size == pkg_hdr_size
      then process_v2 c'
      else (
        record c' {
          recv_stat = body_start;
          precv_buf = in_msg pkg_hdr_size;
          rest_recv_size = size - pkg_hdr_size;
        },
        none,
      )

  -- The switch of _read_request_handler, once recv has stored `n` bytes.
  received : ℕ → ℕ → RecvStat → Conn → Conn × Option MsgBuf
  unfolding await
  received addr n hdr_start c =
      if n == pkg_hdr_size then process_v1 addr c else await n hdr_receiving c
  received addr n hdr_receiving c =
      if n == c.rest_recv_size then process_v1 addr c else await n hdr_receiving c
  received addr n body_start c =
      if n == c.rest_recv_size then process_v2 c else await n body_receiving c
  received addr n body_receiving c =
      if n == c.rest_recv_size then process_v2 c else await n body_receiving c

  -- A read event at which recv returns `chunk`, with at least one byte.
  pub read_chunk : ℕ → List ℕ → Conn → Conn × Option MsgBuf
  unfolding received store_chunk
  read_chunk addr chunk c = received addr (length chunk) c.recv_stat (store_chunk chunk c)

  -- Read events in a row, and the messages in the order in which they go to the thread pool.
  pub read_chunks : ℕ → List (List ℕ) → Conn → Conn × List MsgBuf
  read_chunks addr [] c = (c, [])
  read_chunks addr (chunk ∷ rest) c =
      let (c', out) = read_chunk addr chunk c in
      let (c'', outs) = read_chunks addr rest c' in (c'', with_first out outs)
