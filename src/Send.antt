-- ===== src/Send.antt =====
-- The sending of messages: send_msg, send_uninterrupt and the body of send_msg_th_func in
-- net/mgx_socket.cpp, and send_msg_handler of net/mgx_socket_request.cpp, in the build without
-- USE_HTTP. One round of the inner loop holds the mutex and is one step; `m_send_list` is split at
-- the iterator `it`. Logging is left out.
pub mod Message
pub mod Writable
pub mod Frame
pub mod Round
pub mod Pass
pub mod Watch
pub mod Steps
mod Examples
use my_gx.Base.{
  ℕ, zero, suc, ◌+◌, ◌-◌, ◌/◌, ◌%◌, ◌^◌, List, [], ◌∷◌, ◌++◌, Bool, true, false, not, Option, none,
  some, ltb, ◌==◌, if◌then◌else◌, take, drop,
}
use my_gx.Conn.{Conn, MsgBuf}
use my_gx.Receive.{pkg_size}
use my_gx.Pool.{store}
use my_gx.Epoll.{CtlCall, EsModAction, add, remove, epoll_oper_event, epoll_ctl_mod, epoll_out}

-- What the calls of `send` answer up to the first answer that is not EINTR.
pub data SendCalls : Type 0 where
  accepted : ℕ → SendCalls
  eagain : SendCalls
  eintr : SendCalls → SendCalls
  error : SendCalls

-- The result of send_uninterrupt: a size, -1 or -2.
pub data SendSize : Type 0 where
  size : ℕ → SendSize
  again : SendSize
  failed : SendSize

unfoldable pub send_uninterrupt : SendCalls → SendSize
send_uninterrupt (accepted n) = size n
send_uninterrupt eagain = again
send_uninterrupt (eintr calls) = send_uninterrupt calls
send_uninterrupt error = failed

pub record Sender : Type 0 where
  pub conn : ℕ → Conn
  -- The messages before `it`, and those from `it` on.
  pub passed : List MsgBuf
  pub ahead : List MsgBuf
  -- Whether the buffer of the message at `it` has been deleted.
  pub deleted : Bool
  pub m_send_list_cnt : ℕ
  -- The value of m_send_queue_sem.
  pub send_tokens : ℕ
  -- The messages whose sending was begun, and what the calls of send took, with the connection.
  pub begun : List MsgBuf
  pub wire : List (ℕ × List ℕ)
  pub ctl_calls : List (Option CtlCall)

-- m_send_list.push_back by another thread: when `it` is end(), the message stands before it.
unfoldable pub push_back : MsgBuf → List MsgBuf → Sender → Sender
push_back buf [] s = record s { passed = s.passed ++ (buf ∷ []) }
push_back buf (m ∷ ms) s = record s { ahead = m ∷ (ms ++ (buf ∷ [])) }

unfoldable pub send_msg : MsgBuf → Sender → Sender
unfolding push_back
send_msg buf s = record (push_back buf s.ahead s) {
  m_send_list_cnt = s.m_send_list_cnt + 1;
  send_tokens = s.send_tokens + 1;
}

-- sem_wait returns, and the test of the count.
unfoldable pub begin_pass : Sender → Sender
begin_pass s = record s {
  send_tokens = s.send_tokens - 1;
  passed = if ltb 0 s.m_send_list_cnt then [] else s.passed;
  ahead = if ltb 0 s.m_send_list_cnt then s.passed ++ s.ahead else s.ahead;
}

-- epoll_oper_event with EPOLL_CTL_MOD on EPOLLOUT; a failure is only logged.
unfoldable pub mod_epoll_out : Bool → EsModAction → ℕ → Sender → Sender
mod_epoll_out ctl_ok act a s =
    let r = epoll_oper_event ctl_ok (s.conn a).fd epoll_ctl_mod epoll_out act a (s.conn a) in
    record s { conn = store a r.1 s.conn; ctl_calls = r.2 ∷ s.ctl_calls }

-- `throw_send_cnt = 0; delete[] psend_mem_addr; psend_mem_addr = nullptr;`
unfoldable pub send_over : Conn → Conn
send_over c = record c { throw_send_cnt = 0; psend_mem_addr = none }

-- The branches on send_size in send_msg_th_func.
unfoldable pub after_send : Bool → ℕ → SendSize → Sender → Sender
unfolding send_over mod_epoll_out
after_send ctl_ok a (size zero) s = record s {
  conn = store a (record (s.conn a) { throw_send_cnt = 0 }) s.conn;
}
after_send ctl_ok a (size (suc n)) s =
    let c = s.conn a in
    if suc n == c.rest_send_size
    then record s { conn = store a (send_over c) s.conn }
    else mod_epoll_out ctl_ok add a (record s {
      conn =
          store a
            (record c {
              psend_buf = c.psend_buf + suc n;
              rest_send_size = c.rest_send_size - suc n;
              throw_send_cnt = c.throw_send_cnt + 1;
            })
            s.conn;
    })
after_send ctl_ok a again s =
    let c = s.conn a in
    mod_epoll_out ctl_ok add a
      (record s { conn = store a (record c { throw_send_cnt = c.throw_send_cnt + 1 }) s.conn })
after_send ctl_ok a failed s = record s { conn = store a (send_over (s.conn a)) s.conn }

-- What a call of send takes of the bytes at an address.
unfoldable pub taken : SendSize → List ℕ → List ℕ
taken (size n) bytes = take n bytes
taken again bytes = []
taken failed bytes = []

-- psend_buf, rest_send_size and psend_mem_addr, the erase, and what the call of send takes.
unfoldable pub ready_message : SendSize → MsgBuf → List MsgBuf → Sender → Sender
unfolding taken
ready_message sent m rest s = record s {
  conn =
      store m.pconn
        (record (s.conn m.pconn) {
          psend_buf = 0;
          rest_send_size = pkg_size m.bytes;
          psend_mem_addr = some m;
        })
        s.conn;
  ahead = rest;
  m_send_list_cnt = s.m_send_list_cnt - 1;
  begun = s.begun ++ (m ∷ []);
  wire = s.wire ++ ((m.pconn, taken sent m.bytes) ∷ []);
}

unfoldable pub begin_message : SendCalls → Bool → MsgBuf → List MsgBuf → Sender → Sender
unfolding after_send ready_message send_uninterrupt
begin_message calls ctl_ok m rest s =
    after_send ctl_ok m.pconn (send_uninterrupt calls)
      (ready_message (send_uninterrupt calls) m rest s)

-- The branch for a message of an earlier use: `erase`, and then `delete[] (*it)` on what follows.
-- `none` is that call on end().
unfoldable pub drop_stale : List MsgBuf → Sender → Option Sender
drop_stale [] s = none
drop_stale (next ∷ rest) s =
    some (record s { m_send_list_cnt = s.m_send_list_cnt - 1; ahead = next ∷ rest; deleted = true })

-- One round of the inner loop at the message `m`; `none` is the use of a deleted buffer.
unfoldable pub at_live : SendCalls → Bool → MsgBuf → List MsgBuf → Sender → Option Sender
at_live calls ctl_ok m rest s =
    if not ((s.conn m.pconn).m_cur_seq == m.cur_seq)
    then drop_stale rest s
    else if ltb 0 (s.conn m.pconn).throw_send_cnt
    then some (record s { passed = s.passed ++ (m ∷ []); ahead = rest })
    else some (begin_message calls ctl_ok m rest s)

unfoldable pub at_message : SendCalls → Bool → MsgBuf → List MsgBuf → Sender → Option Sender
at_message calls ctl_ok m rest s = if s.deleted then none else at_live calls ctl_ok m rest s

-- The rounds of a pass, by the messages ahead: `answers i` is what the calls of round i answer.
unfoldable pub send_pass : List MsgBuf → (ℕ → SendCalls × Bool) → Sender → Option Sender
unfolding at_message
send_pass [] answers s = some s
send_pass (m ∷ rest) answers s = elim (at_message (answers 0).0 (answers 0).1 m rest s) [
  | none ↦ none
  | some t ↦ send_pass rest (λ i. answers (suc i)) t
]

-- The `n` bytes of a number in memory, and a message buffer with its mgx_msg_hdr_t in front.
unfoldable pub number_bytes : ℕ → ℕ → List ℕ
number_bytes zero x = []
number_bytes (suc n) x = x % 256 ∷ number_bytes n (x / 256)

unfoldable pub in_memory : Option MsgBuf → List ℕ
unfolding number_bytes
in_memory none = []
in_memory (some m) = number_bytes 8 m.pconn ++ number_bytes 8 m.cur_seq ++ m.bytes

-- The end of send_msg_handler.
unfoldable pub handler_over : ℕ → Sender → Sender
unfolding send_over
handler_over a s = record s {
  send_tokens = s.send_tokens + 1;
  conn = store a (send_over (s.conn a)) s.conn;
}

unfoldable pub handler_sent : Bool → ℕ → SendSize → Sender → Sender
unfolding handler_over mod_epoll_out
handler_sent ctl_ok a (size zero) s = handler_over a s
handler_sent ctl_ok a (size (suc n)) s =
    let c = s.conn a in
    if suc n == c.rest_send_size
    then handler_over a (mod_epoll_out ctl_ok remove a s)
    else record s {
      conn =
          store a
            (record c {
              psend_buf = c.psend_buf + suc n;
              rest_send_size = c.rest_send_size - suc n;
            })
            s.conn;
    }
handler_sent ctl_ok a again s = s
handler_sent ctl_ok a failed s = handler_over a s

-- The write handler: it sends from psend_mem_addr.
unfoldable pub send_msg_handler : SendCalls → Bool → ℕ → Sender → Sender
unfolding handler_sent send_uninterrupt taken in_memory
send_msg_handler calls ctl_ok a s =
    let sent = send_uninterrupt calls in
    handler_sent ctl_ok a sent
      (record s { wire = s.wire ++ ((a, taken sent (in_memory (s.conn a).psend_mem_addr)) ∷ []) })
