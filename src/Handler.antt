-- ===== src/Handler.antt =====
-- A read event on a connection of the pool: read_request_handler with recv_process, of
-- net/mgx_socket_request.cpp. What recv did is an argument.
pub mod System
mod Examples
use my_gx.Base.{ℕ, List, Option, none, some}
use my_gx.Conn.{Conn, MsgBuf}
use my_gx.Pool.{Pool, store, insert_recy_conn_queue, close_conn}
use my_gx.Receive.{read_chunk}

-- What recv does: it stores bytes, one at least; it returns 0, as the other side has shut down; it
-- fails with EAGAIN, EWOULDBLOCK or EINTR; or it fails otherwise, ECONNRESET included.
pub data Recv : Type 0 where
  got : List ℕ → Recv
  shut_down not_now failed : Recv

-- The bytes that recv_process stores, or none if it returns -1, and what it does to the pool.
pub recv_process : ℕ → ℕ → Recv → Pool → Option (List ℕ) × Pool
recv_process now c (got chunk) p = (some chunk, p)
recv_process now c shut_down p = (none, insert_recy_conn_queue now c p)
recv_process now c not_now p = (none, p)
recv_process now c failed p = (none, close_conn c p)

-- The handler: the pool, and the message that goes to the thread pool. A new message buffer holds
-- `garbage` until it is written.
pub after_recv : ℕ → ℕ → Option (List ℕ) × Pool → Pool × Option MsgBuf
after_recv garbage c (none, p) = (p, none)
after_recv garbage c (some chunk, p) =
    let (c', out) = read_chunk garbage c chunk (p.conn c) in
    (record p { conn = store c c' p.conn }, out)

pub read_request_handler : ℕ → ℕ → ℕ → Recv → Pool → Pool × Option MsgBuf
read_request_handler garbage now c r p = after_recv garbage c (recv_process now c r p)
