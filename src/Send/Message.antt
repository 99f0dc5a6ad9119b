-- ===== src/Send/Message.antt =====
-- One message on its way: what send_msg_th_func in net/mgx_socket.cpp and send_msg_handler in
-- net/mgx_socket_request.cpp make of it.
use my_gx.Base.{
  ℕ, zero, suc, ◌+◌, ◌≤◌, ◌<◌, List, [], ◌∷◌, ◌++◌, length, take, drop, take-append-drop,
  take_of_le, length-drop, Bool, none, some, ◌==◌, ==_self, ◌≡◌, refl, ap, ◌∙◌, Bool-cases, inl,
  inr, arith,
}
use my_gx.Conn.{Conn, MsgBuf}
use my_gx.Receive.{pkg_size}
use my_gx.Epoll.{epoll_oper_event, switch_events, after_switch}
use my_gx.Send.{
  SendSize, size, again, failed, SendCalls, send_uninterrupt, Sender, after_send, mod_epoll_out,
  send_over, taken, ready_message, begin_message,
}
use my_gx.Send.Frame.{after_send-AtConn}

-- What has become of the message `m` and of its connection after its round.
pub data Outcome (m : MsgBuf) (sent : List ℕ) (c : Conn) : Type 0 where
  -- The whole package was taken, and the buffer is deleted.
  whole : sent ≡ m.bytes → c.throw_send_cnt ≡ 0 → c.psend_mem_addr ≡ none → Outcome m sent c
  -- A part was taken; the connection remembers the rest.
  part :
      sent ++ take c.rest_send_size (drop c.psend_buf m.bytes) ≡ m.bytes
      → 0 < c.throw_send_cnt
      → c.psend_mem_addr ≡ some m
      → Outcome m sent c
  -- Nothing was taken, and the message is given up.
  lost : sent ≡ [] → c.throw_send_cnt ≡ 0 → Outcome m sent c

-- What send says that it took is not more than it was asked to take.
abbrev pub Fits : SendSize → MsgBuf → Type 0
Fits (size n) m = n ≤ length m.bytes
Fits again m = Unit {0}
Fits failed m = Unit {0}

split_at :
    (k j r : ℕ) (bytes : List ℕ)
    → j ≡ k
    → r + k ≡ length bytes
    → take k bytes ++ take r (drop j bytes) ≡ bytes
split_at k j r bytes e h =
    ap (λ j. take k bytes ++ take r (drop j bytes)) e
    ∙ ap (λ l. take k bytes ++ l)
        (take_of_le r (drop k bytes) (omega (arith, h, length-drop k bytes)))
    ∙ take-append-drop k bytes

after_send-Outcome :
    (ctl_ok : Bool) (m : MsgBuf) (sent : SendSize) (s : Sender)
    → pkg_size m.bytes ≡ length m.bytes
    → (s.conn m.pconn).throw_send_cnt ≡ 0
    → (s.conn m.pconn).psend_buf ≡ 0
    → (s.conn m.pconn).rest_send_size ≡ pkg_size m.bytes
    → (s.conn m.pconn).psend_mem_addr ≡ some m
    → Fits sent m
    → Outcome m (taken sent m.bytes) ((after_send ctl_ok m.pconn sent s).conn m.pconn)
unfolding after_send taken send_over mod_epoll_out epoll_oper_event switch_events after_switch
after_send-Outcome ctl_ok m (size zero) s whole_size idle from rest mem fits =
    lost refl (rw (==_self m.pconn) refl)
after_send-Outcome ctl_ok m (size (suc n)) s whole_size idle from rest mem fits =
    elim (Bool-cases (suc n == (s.conn m.pconn).rest_send_size)) [
      | inl all ↦
          whole (take_of_le (suc n) m.bytes (ground (arith, all, rest, whole_size)))
            (rw (all, ==_self m.pconn) refl) (rw (all, ==_self m.pconn) refl)
      | inr some_left ↦
          part
            (rw (some_left, ==_self m.pconn)
              (split_at (suc n) _ _ m.bytes (omega (arith, from))
                (omega (arith, rest, whole_size, fits))))
            (rw (some_left, ==_self m.pconn) (omega arith)) (rw (some_left, ==_self m.pconn) mem)
    ]
after_send-Outcome ctl_ok m again s whole_size idle from rest mem fits =
    part (rw (==_self m.pconn) (split_at 0 _ _ m.bytes from (omega (arith, rest, whole_size))))
      (rw (==_self m.pconn) (omega arith)) (rw (==_self m.pconn) mem)
after_send-Outcome ctl_ok m failed s whole_size idle from rest mem fits =
    lost refl (rw (==_self m.pconn) refl)

-- When the sending of a message whose size field is right is begun on a connection that is not
-- sending, and send takes no more than it is given: either the whole package was taken, or what was
-- taken and what the connection remembers are together the package, and it still sends, or the
-- message is given up with nothing taken. The bytes taken are put on the wire of that connection.
pub begin_message-Outcome :
    (calls : SendCalls) (ctl_ok : Bool) (m : MsgBuf) (rest : List MsgBuf) (s : Sender)
    → pkg_size m.bytes ≡ length m.bytes
    → (s.conn m.pconn).throw_send_cnt ≡ 0
    → Fits (send_uninterrupt calls) m
    → let t = begin_message calls ctl_ok m rest s in
      let sent = taken (send_uninterrupt calls) m.bytes in
      (t.wire ≡ s.wire ++ ((m.pconn, sent) ∷ [])) × Outcome m sent (t.conn m.pconn)
unfolding begin_message ready_message
begin_message-Outcome calls ctl_ok m rest s whole_size idle fits =
    let sent = send_uninterrupt calls in
    let r = ready_message sent m rest s in
    let here = ==_self m.pconn in
    (
      (after_send-AtConn ctl_ok m.pconn sent r).wire,
      after_send-Outcome ctl_ok m sent r whole_size (rw here idle) (rw here refl) (rw here refl)
          (rw here refl) fits,
    )
