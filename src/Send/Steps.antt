-- ===== src/Send/Steps.antt =====
-- The sending thread of net/mgx_socket.cpp among the other threads, as a step relation.
use my_gx.Base.{
  ℕ, zero, suc, ◌+◌, ◌<◌, List, [], ◌∷◌, length, length-append, Bool, none, some, ltb, ◌==◌,
  if_true, if_false, ◌≡◌, refl, sym, ap, ◌∙◌, subst, Bool-cases, inl, inr, arith,
}
use mathlib.Core.Option.{some-injective}
use my_gx.Conn.{Conn, MsgBuf, get_one_to_use}
use my_gx.Epoll.{
  epoll_oper_event, switch_events, after_switch, epoll_ctl_add, epoll_in, epoll_rdhup, ignore,
}
use my_gx.Pool.{store}
use my_gx.Send.{
  SendSize, size, again, failed, SendCalls, send_uninterrupt, Sender, handler_sent, handler_over,
  ready_message, begin_message, drop_stale, at_live, at_message, begin_pass, send_msg, push_back,
  send_msg_handler, mod_epoll_out,
}
use my_gx.Send.Frame.{after_send-AtConn}
use my_gx.Send.Watch.{
  HasOut, IsWatched, idle-IsWatched, AllWatched, store-AllWatched, begin_message-AllWatched,
  handler_sent-AllWatched,
}

-- epoll_oper_event with EPOLL_CTL_ADD for reading.
unfoldable pub register : Bool → ℕ → Sender → Sender
register ctl_ok a s =
    let r =
      epoll_oper_event ctl_ok (s.conn a).fd epoll_ctl_add (epoll_in + epoll_rdhup) ignore a
        (s.conn a) in
    record s { conn = store a r.1 s.conn; ctl_calls = r.2 ∷ s.ctl_calls }

-- A message is queued; the semaphore lets the sending thread go over the queue; it does one round; the
-- event loop calls the write handler; a connection is taken into use; one with nothing to send is
-- given to epoll for reading; or a connection changes in what neither sending nor epoll look at, as
-- when it is read or given back.
pub data Step (s : Sender) : Sender → Type 0 where
  queued : (buf : MsgBuf) → Step s (send_msg buf s)
  woken : 0 < s.send_tokens → s.ahead ≡ [] → Step s (begin_pass s)
  round :
      (calls : SendCalls) (ctl_ok : Bool) (m : MsgBuf) (rest : List MsgBuf) (t : Sender)
      → s.ahead ≡ m ∷ rest
      → at_message calls ctl_ok m rest s ≡ some t
      → Step s t
  writable :
      (calls : SendCalls) (ctl_ok : Bool) (a : ℕ) → Step s (send_msg_handler calls ctl_ok a s)
  renewed :
      (now a : ℕ) → Step s (record s { conn = store a (get_one_to_use now (s.conn a)) s.conn })
  registered :
      (ctl_ok : Bool) (a : ℕ) → (s.conn a).throw_send_cnt ≡ 0 → Step s (register ctl_ok a s)
  changed :
      (a : ℕ) (c : Conn)
      → c.throw_send_cnt ≡ (s.conn a).throw_send_cnt
      → c.events ≡ (s.conn a).events
      → Step s (record s { conn = store a c s.conn })

pub data Steps (s : Sender) : Sender → Type 0 where
  none_yet : Steps s s
  then_step : (t u : Sender) → Steps s t → Step t u → Steps s u

pub record Inv (s : Sender) : Type 0 where
  pub counted : s.m_send_list_cnt ≡ length s.passed + length s.ahead
  pub watched : AllWatched s

push_back_counted :
    (buf : MsgBuf) (l : List MsgBuf) (s : Sender)
    → s.ahead ≡ l
    → let t = push_back buf l s in
      length t.passed + length t.ahead ≡ length s.passed + length s.ahead + 1
unfolding push_back
push_back_counted buf [] s e = omega (arith, length-append s.passed (buf ∷ []))
push_back_counted buf (m ∷ ms) s e = omega (arith, length-append ms (buf ∷ []), ap length e)

push_back_conn :
    (buf : MsgBuf) (l : List MsgBuf) (s : Sender) (a : ℕ) → (push_back buf l s).conn a ≡ s.conn a
unfolding push_back
push_back_conn buf [] s a = refl
push_back_conn buf (m ∷ ms) s a = refl

send_msg-Inv : (buf : MsgBuf) (s : Sender) → Inv s → Inv (send_msg buf s)
unfolding send_msg
send_msg-Inv buf s i = record {
  counted = omega (arith, i.counted, push_back_counted buf s.ahead s refl);
  watched = λ a. subst IsWatched (sym (push_back_conn buf s.ahead s a)) (i.watched a);
}

begin_pass-Inv : (s : Sender) → Inv s → Inv (begin_pass s)
unfolding begin_pass
begin_pass-Inv s i = elim (Bool-cases (ltb 0 s.m_send_list_cnt)) [
  | inl some_count ↦ rw some_count (record {
    counted = omega (arith, i.counted, length-append s.passed s.ahead);
    watched = i.watched;
  })
  | inr no_count ↦ rw no_count (record { counted = i.counted; watched = i.watched })
]

begin_message-Inv :
    (calls : SendCalls) (ctl_ok : Bool) (m : MsgBuf) (rest : List MsgBuf) (s : Sender)
    → s.ahead ≡ m ∷ rest
    → Inv s
    → Inv (begin_message calls ctl_ok m rest s)
unfolding begin_message ready_message
begin_message-Inv calls ctl_ok m rest s e i =
    let sent = send_uninterrupt calls in
    let f = after_send-AtConn ctl_ok m.pconn sent (ready_message sent m rest s) in
    record {
      counted =
          omega (arith, i.counted, ap length e, f.count, ap length f.passed, ap length f.ahead);
      watched = begin_message-AllWatched calls ctl_ok m rest s i.watched;
    }

drop_stale-Inv :
    (m : MsgBuf) (rest : List MsgBuf) (s t : Sender)
    → s.ahead ≡ m ∷ rest
    → drop_stale rest s ≡ some t
    → Inv s
    → Inv t
unfolding drop_stale
drop_stale-Inv m [] s t e r i = cc
drop_stale-Inv m (next ∷ rest) s t e r i =
    subst Inv (some-injective _ _ r)
      (record { counted = omega (arith, i.counted, ap length e); watched = i.watched })

at_live-Inv :
    (calls : SendCalls) (ctl_ok : Bool) (m : MsgBuf) (rest : List MsgBuf) (s t : Sender)
    → s.ahead ≡ m ∷ rest
    → at_live calls ctl_ok m rest s ≡ some t
    → Inv s
    → Inv t
unfolding at_live
at_live-Inv calls ctl_ok m rest s t e r i =
    elim (Bool-cases ((s.conn m.pconn).m_cur_seq == m.cur_seq)) [
      | inr old ↦ drop_stale-Inv m rest s t e (rw old at r) i
      | inl present ↦ elim (Bool-cases (ltb 0 (s.conn m.pconn).throw_send_cnt)) [
        | inl busy ↦ subst Inv (some-injective _ _ (rw (present, busy) at r)) (record {
          counted = omega (arith, i.counted, ap length e, length-append s.passed (m ∷ []));
          watched = i.watched;
        })
        | inr idle ↦
            subst Inv (some-injective _ _ (rw (present, idle) at r))
              (begin_message-Inv calls ctl_ok m rest s e i)
      ]
    ]

at_message-Inv :
    (calls : SendCalls) (ctl_ok : Bool) (m : MsgBuf) (rest : List MsgBuf) (s t : Sender)
    → s.ahead ≡ m ∷ rest
    → at_message calls ctl_ok m rest s ≡ some t
    → Inv s
    → Inv t
unfolding at_message
at_message-Inv calls ctl_ok m rest s t e r i = elim (Bool-cases s.deleted) [
  | inl gone ↦ absurd (cc (sym (if_true s.deleted none (at_live calls ctl_ok m rest s) gone) ∙ r))
  | inr alive ↦
      at_live-Inv calls ctl_ok m rest s t e
        (sym (if_false s.deleted none (at_live calls ctl_ok m rest s) alive) ∙ r) i
]

-- The write handler leaves the queue as it is.
handler_queue :
    (ctl_ok : Bool) (a : ℕ) (sent : SendSize) (s : Sender)
    → let t = handler_sent ctl_ok a sent s in
      (t.m_send_list_cnt ≡ s.m_send_list_cnt) × (t.passed ≡ s.passed) × (t.ahead ≡ s.ahead)
unfolding handler_sent handler_over mod_epoll_out
handler_queue ctl_ok a (size zero) s = (refl, refl, refl)
handler_queue ctl_ok a (size (suc n)) s = elim (Bool-cases (suc n == (s.conn a).rest_send_size)) [
  | inl whole ↦ rw whole (refl, refl, refl)
  | inr part ↦ rw part (refl, refl, refl)
]
handler_queue ctl_ok a again s = (refl, refl, refl)
handler_queue ctl_ok a failed s = (refl, refl, refl)

handler_sent-Inv :
    (ctl_ok : Bool) (a : ℕ) (sent : SendSize) (s : Sender)
    → Inv s
    → Inv (handler_sent ctl_ok a sent s)
handler_sent-Inv ctl_ok a sent s i =
    let (count, passed, ahead) = handler_queue ctl_ok a sent s in
    record {
      counted = omega (arith, i.counted, count, ap length passed, ap length ahead);
      watched = handler_sent-AllWatched ctl_ok a sent s i.watched;
    }

Step-Inv : (s t : Sender) → Step s t → Inv s → Inv t
unfolding send_msg_handler register get_one_to_use epoll_oper_event switch_events after_switch
Step-Inv s _ (queued buf) i = send_msg-Inv buf s i
Step-Inv s _ (woken posted ended) i = begin_pass-Inv s i
Step-Inv s _ (round calls ctl_ok m rest t e r) i = at_message-Inv calls ctl_ok m rest s t e r i
Step-Inv s _ (writable calls ctl_ok a) i =
    handler_sent-Inv ctl_ok a (send_uninterrupt calls) _
      (record { counted = i.counted; watched = i.watched })
Step-Inv s _ (renewed now a) i = record {
  counted = i.counted;
  watched = store-AllWatched a _ s (idle-IsWatched _ refl) i.watched;
}
Step-Inv s _ (registered ctl_ok a idle) i = record {
  counted = i.counted;
  watched = store-AllWatched a _ s (idle-IsWatched _ idle) i.watched;
}
Step-Inv s _ (changed a c same_cnt same_events) i = record {
  counted = i.counted;
  watched =
      store-AllWatched a c s
        (record {
          sending = λ k.
              subst HasOut (sym same_events) ((i.watched a).sending (omega (arith, k, same_cnt)));
        })
        i.watched;
}

-- However messages are queued, the sending thread goes over the queue, the event loop calls the
-- write handler, connections are taken into use, given to epoll and changed otherwise, and whether or
-- not epoll_ctl succeeds: m_send_list_cnt stays the length of the queue, and EPOLLOUT is among the
-- events that a connection keeps as long as it still has to send.
pub Steps-Inv : (s t : Sender) → Steps s t → Inv s → Inv t
Steps-Inv s _ none_yet i = i
Steps-Inv s _ (then_step t u before step) i = Step-Inv t u step (Steps-Inv s t before i)
