-- ===== src/Send/Writable.antt =====
-- The write handler, send_msg_handler in net/mgx_socket_request.cpp.
use my_gx.Base.{
  ℕ, zero, suc, ◌+◌, ◌-◌, ◌≤◌, ◌<◌, List, [], ◌∷◌, ◌++◌, take, take-append_of_le, Bool, true, false,
  Option, none, some, ◌==◌, ==_self, ◌≡◌, refl, ap, ◌∙◌, Bool-cases, inl, inr, arith,
}
use my_gx.Conn.{MsgBuf}
use my_gx.Epoll.{remove, mod_events, epoll_out, epoll_oper_event, switch_events, after_switch}
use my_gx.Send.{
  SendSize, size, again, failed, SendCalls, send_uninterrupt, Sender, mod_epoll_out, accepted,
  send_over, taken, handler_sent, handler_over, send_msg_handler, in_memory, number_bytes,
}

-- The write handler called once for each of the sizes that send takes.
unfoldable pub write_events : Bool → ℕ → List ℕ → Sender → Sender
write_events ctl_ok a [] s = s
write_events ctl_ok a (n ∷ ns) s =
    write_events ctl_ok a ns (send_msg_handler (accepted n) ctl_ok a s)

abbrev pub total : List ℕ → ℕ
total [] = 0
total (n ∷ ns) = n + total ns

abbrev pub AllPositive : List ℕ → Type 0
AllPositive [] = Unit {0}
AllPositive (n ∷ ns) = (0 < n) × AllPositive ns

-- The end of the sending of a message by write events.
pub record Drained (a : ℕ) (s t : Sender) : Type 0 where
  pub idle : (t.conn a).throw_send_cnt ≡ 0
  pub mem : (t.conn a).psend_mem_addr ≡ none
  pub woken : t.send_tokens ≡ s.send_tokens + 1
  pub quiet : (t.conn a).events ≡ mod_events remove epoll_out (s.conn a).events

last_event :
    (ctl_ok : Bool) (a n : ℕ) (s : Sender)
    → suc n ≡ (s.conn a).rest_send_size
    → Drained a s (send_msg_handler (accepted (suc n)) ctl_ok a s)
unfolding send_msg_handler handler_sent handler_over mod_epoll_out epoll_oper_event switch_events
    after_switch send_over
last_event ctl_ok a n s e =
    let whole : (suc n == (s.conn a).rest_send_size) ≡ true = ground (arith, e) in
    record {
      idle = rw (whole, ==_self a) refl;
      mem = rw (whole, ==_self a) refl;
      woken = rw whole refl;
      quiet = rw (whole, ==_self a) refl;
    }

-- What a write event leaves that takes a part.
record Partly (a n : ℕ) (s t : Sender) : Type 0 where
  rest : (t.conn a).rest_send_size ≡ (s.conn a).rest_send_size - n
  tokens : t.send_tokens ≡ s.send_tokens
  events : (t.conn a).events ≡ (s.conn a).events

part_event :
    (ctl_ok : Bool) (a n : ℕ) (s : Sender)
    → suc n < (s.conn a).rest_send_size
    → Partly a (suc n) s (send_msg_handler (accepted (suc n)) ctl_ok a s)
unfolding send_msg_handler handler_sent
part_event ctl_ok a n s h =
    let part : (suc n == (s.conn a).rest_send_size) ≡ false = ground (arith, h) in
    record {
      rest = rw (part, ==_self a) refl;
      tokens = rw part refl;
      events = rw (part, ==_self a) refl;
    }

total_positive : (k : ℕ) (ks : List ℕ) → 0 < k → 0 < total (k ∷ ks)
total_positive k ks h = omega arith

-- Write events in which send takes, in pieces of at least a byte, as much as the connection still
-- has to send, end the sending: the connection can begin its next message, its buffer is deleted,
-- EPOLLOUT is given up, and the sending thread is woken once for it.
pub write_events-Drained :
    (ctl_ok : Bool) (a n : ℕ) (ns : List ℕ) (s : Sender)
    → AllPositive (n ∷ ns)
    → total (n ∷ ns) ≡ (s.conn a).rest_send_size
    → Drained a s (write_events ctl_ok a (n ∷ ns) s)
unfolding write_events
write_events-Drained ctl_ok a zero ns s (h, hs) e = absurd (omega (arith, h))
write_events-Drained ctl_ok a (suc n) [] s (h, hs) e = last_event ctl_ok a n s (omega (arith, e))
write_events-Drained ctl_ok a (suc n) (k ∷ ks) s (h, hs) e =
    let t = send_msg_handler (accepted (suc n)) ctl_ok a s in
    let p : Partly a (suc n) s t =
      part_event ctl_ok a n s (omega (arith, e, total_positive k ks hs.0)) in
    let d = write_events-Drained ctl_ok a k ks t hs (omega (arith, e, p.rest)) in
    record {
      idle = d.idle;
      mem = d.mem;
      woken = omega (arith, d.woken, p.tokens);
      quiet = d.quiet ∙ ap (mod_events remove epoll_out) p.events;
    }

handler_sent_wire :
    (ctl_ok : Bool) (a : ℕ) (sent : SendSize) (s : Sender)
    → (handler_sent ctl_ok a sent s).wire ≡ s.wire
unfolding handler_sent handler_over mod_epoll_out
handler_sent_wire ctl_ok a (size zero) s = refl
handler_sent_wire ctl_ok a (size (suc n)) s =
    elim (Bool-cases (suc n == (s.conn a).rest_send_size)) [
      | inl all ↦ rw all refl
      | inr some_left ↦ rw some_left refl
    ]
handler_sent_wire ctl_ok a again s = refl
handler_sent_wire ctl_ok a failed s = refl

taken_header :
    (sent : SendSize) (n : ℕ) (m : MsgBuf) (mem : Option MsgBuf)
    → sent ≡ size n
    → n ≤ 16
    → mem ≡ some m
    → taken sent (in_memory mem) ≡ take n (number_bytes 8 m.pconn ++ number_bytes 8 m.cur_seq)
unfolding taken in_memory
taken_header sent n m mem e h held =
    rw (e, held)
      (take-append_of_le n (number_bytes 8 m.pconn ++ number_bytes 8 m.cur_seq) m.bytes h)

-- Where the write handler starts: at the beginning of the buffer, with the 16 bytes of the message
-- header, whatever part of the package has been sent.
pub send_msg_handler_header :
    (calls : SendCalls) (ctl_ok : Bool) (a n : ℕ) (m : MsgBuf) (s : Sender)
    → send_uninterrupt calls ≡ size n
    → n ≤ 16
    → (s.conn a).psend_mem_addr ≡ some m
    → (send_msg_handler calls ctl_ok a s).wire
      ≡ s.wire ++ ((a, take n (number_bytes 8 m.pconn ++ number_bytes 8 m.cur_seq)) ∷ [])
unfolding send_msg_handler
send_msg_handler_header calls ctl_ok a n m s e h mem =
    handler_sent_wire ctl_ok a (send_uninterrupt calls) _
    ∙ ap (λ l. s.wire ++ ((a, l) ∷ []))
        (taken_header (send_uninterrupt calls) n m (s.conn a).psend_mem_addr e h mem)
