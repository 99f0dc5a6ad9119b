-- ===== src/Send/Watch.antt =====
-- The connections that still send, and the count of the queue, under every interleaving of the
-- sending thread of net/mgx_socket.cpp with the other threads.
use my_gx.Base.{
  ◌/◌, ◌%◌, ℕ, zero, suc, ◌<◌, List, Bool, ◌==◌, ==_self, ◌≡◌, refl, Bool-cases, inl, inr, arith,
}
use my_gx.Base.Masks.{bit_or-four}
use my_gx.Conn.{Conn, MsgBuf}
use my_gx.Pool.{store}
use my_gx.Epoll.{add, remove, epoll_oper_event, switch_events, after_switch, mod_events, epoll_out}
use my_gx.Send.{
  SendSize, size, again, failed, SendCalls, send_uninterrupt, Sender, after_send, mod_epoll_out,
  send_over, handler_sent, handler_over, ready_message, begin_message,
}

-- EPOLLOUT is among the events.
unfoldable pub HasOut : ℕ → Type 0
HasOut events = events / 4 % 2 ≡ 1

-- A connection that still has to send asks epoll for EPOLLOUT.
pub record IsWatched (c : Conn) : Type 0 where
  pub sending : 0 < c.throw_send_cnt → HasOut c.events

abbrev pub AllWatched : Sender → Type 0
AllWatched s = (a : ℕ) → IsWatched (s.conn a)

add_out : (e : ℕ) → HasOut (mod_events add epoll_out e)
unfolding HasOut mod_events
add_out e = bit_or-four e

pub store-AllWatched :
    (a : ℕ) (c : Conn) (s : Sender)
    → IsWatched c
    → AllWatched s
    → AllWatched (record s { conn = store a c s.conn })
store-AllWatched a c s w all b = elim (Bool-cases (b == a)) [
  | inl its ↦ rw its w
  | inr other ↦ rw other (all b)
]

-- EPOLLOUT is asked for after the connection was changed to one that may still send.
add-AllWatched :
    (ctl_ok : Bool) (a : ℕ) (c : Conn) (s : Sender)
    → AllWatched s
    → AllWatched (mod_epoll_out ctl_ok add a (record s { conn = store a c s.conn }))
unfolding mod_epoll_out epoll_oper_event switch_events after_switch
add-AllWatched ctl_ok a c s all b = elim (Bool-cases (b == a)) [
  | inl its ↦ rw (its, ==_self a) (record { sending = λ k. add_out c.events })
  | inr other ↦ rw other (all b)
]

pub idle-IsWatched : (c : Conn) → c.throw_send_cnt ≡ 0 → IsWatched c
idle-IsWatched c idle = record { sending = λ k. absurd (omega (arith, idle, k)) }

after_send-AllWatched :
    (ctl_ok : Bool) (a : ℕ) (sent : SendSize) (s : Sender)
    → AllWatched s
    → AllWatched (after_send ctl_ok a sent s)
unfolding after_send send_over
after_send-AllWatched ctl_ok a (size zero) s all =
    store-AllWatched a _ s (idle-IsWatched _ refl) all
after_send-AllWatched ctl_ok a (size (suc n)) s all =
    elim (Bool-cases (suc n == (s.conn a).rest_send_size)) [
      | inl whole ↦ rw whole (store-AllWatched a _ s (idle-IsWatched _ refl) all)
      | inr part ↦ rw part (add-AllWatched ctl_ok a _ s all)
    ]
after_send-AllWatched ctl_ok a again s all = add-AllWatched ctl_ok a _ s all
after_send-AllWatched ctl_ok a failed s all = store-AllWatched a _ s (idle-IsWatched _ refl) all

handler_over-AllWatched : (a : ℕ) (s : Sender) → AllWatched s → AllWatched (handler_over a s)
unfolding handler_over send_over
handler_over-AllWatched a s all = store-AllWatched a _ s (idle-IsWatched _ refl) all

-- EPOLLOUT is given up when the connection has sent all.
remove-AllWatched :
    (ctl_ok : Bool) (a : ℕ) (s : Sender)
    → AllWatched s
    → AllWatched (handler_over a (mod_epoll_out ctl_ok remove a s))
unfolding handler_over send_over mod_epoll_out epoll_oper_event switch_events after_switch
remove-AllWatched ctl_ok a s all b = elim (Bool-cases (b == a)) [
  | inl its ↦ rw (its, ==_self a) (idle-IsWatched _ refl)
  | inr other ↦ rw other (all b)
]

pub handler_sent-AllWatched :
    (ctl_ok : Bool) (a : ℕ) (sent : SendSize) (s : Sender)
    → AllWatched s
    → AllWatched (handler_sent ctl_ok a sent s)
unfolding handler_sent
handler_sent-AllWatched ctl_ok a (size zero) s all = handler_over-AllWatched a s all
handler_sent-AllWatched ctl_ok a (size (suc n)) s all =
    elim (Bool-cases (suc n == (s.conn a).rest_send_size)) [
      | inl whole ↦ rw whole (remove-AllWatched ctl_ok a s all)
      | inr part ↦ rw part (store-AllWatched a _ s (record { sending = (all a).sending }) all)
    ]
handler_sent-AllWatched ctl_ok a again s all = all
handler_sent-AllWatched ctl_ok a failed s all = handler_over-AllWatched a s all

pub begin_message-AllWatched :
    (calls : SendCalls) (ctl_ok : Bool) (m : MsgBuf) (rest : List MsgBuf) (s : Sender)
    → AllWatched s
    → AllWatched (begin_message calls ctl_ok m rest s)
unfolding begin_message ready_message
begin_message-AllWatched calls ctl_ok m rest s all =
    after_send-AllWatched ctl_ok m.pconn (send_uninterrupt calls)
      (ready_message (send_uninterrupt calls) m rest s)
      (store-AllWatched m.pconn _ s (record { sending = (all m.pconn).sending }) all)
