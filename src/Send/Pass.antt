-- ===== src/Send/Pass.antt =====
-- A pass of send_msg_th_func in net/mgx_socket.cpp over the queue.
use my_gx.Base.{
  ℕ, suc, ◌<◌, List, [], ◌∷◌, ◌++◌, length, Bool, true, false, some, ltb, ◌==◌, ◌≡◌, refl, sym, ap,
  ◌∙◌, inl, inr, arith, lt→ltb, subst, ◌⊎◌, ap₂, append-nil,
}
use my_gx.Base.Bits.{zero_or_more}
use my_gx.Conn.{Conn, MsgBuf}
use my_gx.Send.{Sender, SendCalls, send_pass, at_message, at_live, begin_message, begin_pass}
use my_gx.Send.Round.{Queue, Advances, Round, skip-Round, begin-Round, of_conn}

-- No message of the list is of an earlier use of its connection.
unfoldable pub AllPresent : (ℕ → Conn) → List MsgBuf → Type 0
AllPresent conn [] = Unit {0}
AllPresent conn (m ∷ ms) = (m.cur_seq ≡ (conn m.pconn).m_cur_seq) × AllPresent conn ms

AllPresent-stable :
    (f g : ℕ → Conn) (ms : List MsgBuf)
    → ((a : ℕ) → (g a).m_cur_seq ≡ (f a).m_cur_seq)
    → AllPresent f ms
    → AllPresent g ms
unfolding AllPresent
AllPresent-stable f g [] same all = all
AllPresent-stable f g (m ∷ ms) same (e, all) =
    (e ∙ sym (same m.pconn), AllPresent-stable f g ms same all)

Advances-trans : (s t u : Sender) → Advances s t → Advances t u → Advances s u
Advances-trans s t u p q = record {
  order = λ c. q.order c ∙ p.order c;
  same_seq = λ a. q.same_seq a ∙ p.same_seq a;
  busy = λ a h.
      q.busy a (subst (λ (c : Conn). 0 < c.throw_send_cnt) (sym (p.busy a h)) h) ∙ p.busy a h;
}

at_message-Round :
    (calls : SendCalls) (ctl_ok : Bool) (m : MsgBuf) (rest : List MsgBuf) (s : Sender)
    → Queue s
    → s.ahead ≡ m ∷ rest
    → m.cur_seq ≡ (s.conn m.pconn).m_cur_seq
    → (t : Sender) × (at_message calls ctl_ok m rest s ≡ some t) × Round rest s t
unfolding at_message at_live
at_message-Round calls ctl_ok m rest s q e present =
    let same : ((s.conn m.pconn).m_cur_seq == m.cur_seq) ≡ true = ground (arith, present) in
    elim (zero_or_more (s.conn m.pconn).throw_send_cnt) [
      | inl idle ↦ (
        begin_message calls ctl_ok m rest s,
        rw (q.alive, same, idle) refl,
        begin-Round calls ctl_ok m rest s q e idle,
      )
      | inr busy ↦ (
        record s { passed = s.passed ++ (m ∷ []); ahead = rest },
        rw (q.alive, same, lt→ltb _ _ busy) refl,
        skip-Round m rest s q e busy,
      )
    ]

send_pass-cons :
    (m : MsgBuf) (ms : List MsgBuf) (answers : ℕ → SendCalls × Bool) (s t u : Sender)
    → at_message (answers 0).0 (answers 0).1 m ms s ≡ some t
    → send_pass ms (λ i. answers (suc i)) t ≡ some u
    → send_pass (m ∷ ms) answers s ≡ some u
unfolding send_pass
send_pass-cons m ms answers s t u reached ended = rw (send_pass, reached) ended

-- A pass over messages of present uses runs to the end of the queue.
send_pass-Round :
    (ms : List MsgBuf) (answers : ℕ → SendCalls × Bool) (s : Sender)
    → Queue s
    → s.ahead ≡ ms
    → AllPresent s.conn ms
    → (t : Sender) × (send_pass ms answers s ≡ some t) × Round [] s t
unfolding send_pass AllPresent
send_pass-Round [] answers s q e all = (
  s,
  refl,
  record {
    moved = e;
    queue = q;
    advances = record { order = λ c. refl; same_seq = λ a. refl; busy = λ a h. refl };
  },
)
send_pass-Round (m ∷ ms) answers s q e (present, all) =
    let (t, reached, r) = at_message-Round (answers 0).0 (answers 0).1 m ms s q e present in
    let (u, ended, r') =
      send_pass-Round ms (λ i. answers (suc i)) t r.queue r.moved
        (AllPresent-stable s.conn t.conn ms r.advances.same_seq all) in
    (
      u,
      send_pass-cons m ms answers s t u reached ended,
      record {
        moved = r'.moved;
        queue = r'.queue;
        advances = Advances-trans s t u r.advances r'.advances;
      },
    )

-- What a pass has done to the queue that it found.
pub record Passed (found : List MsgBuf) (s t : Sender) : Type 0 where
  pub order : (c : ℕ) → of_conn c (t.begun ++ t.passed) ≡ of_conn c (s.begun ++ found)
  pub counted : t.m_send_list_cnt ≡ length t.passed
  pub ended : t.ahead ≡ []
  pub waits : (c : ℕ) → (of_conn c t.passed ≡ []) ⊎ (0 < (t.conn c).throw_send_cnt)
  pub busy : (a : ℕ) → 0 < (s.conn a).throw_send_cnt → t.conn a ≡ s.conn a

Round-Passed :
    (s t : Sender)
    → (begin_pass s).passed ≡ []
    → (begin_pass s).ahead ≡ s.passed
    → Round [] (begin_pass s) t
    → Passed s.passed s t
unfolding begin_pass
Round-Passed s t none_passed found r = record {
  order = λ c.
      ap (λ l. of_conn c (t.begun ++ l))
        (sym (ap (λ l. t.passed ++ l) r.moved ∙ append-nil t.passed))
      ∙ r.advances.order c
      ∙ ap₂ (λ (l k : List MsgBuf). of_conn c (s.begun ++ (l ++ k))) none_passed found;
  counted = omega (arith, r.queue.counted, ap length r.moved);
  ended = r.moved;
  waits = r.queue.waits;
  busy = r.advances.busy;
}

-- A pass of the sending thread over a queue that is counted, not empty, and without a message of an
-- earlier use, during which no other thread queues messages or changes connections, ends whatever
-- send and epoll_ctl answer: of each connection the messages are begun
-- in the order of the queue, those left are still in it and counted, and wait for a connection that
-- is still sending; a connection that was sending before the pass does not change.
pub send_pass-Passed :
    (answers : ℕ → SendCalls × Bool) (s : Sender)
    → s.m_send_list_cnt ≡ length s.passed
    → 0 < length s.passed
    → s.ahead ≡ []
    → s.deleted ≡ false
    → AllPresent s.conn s.passed
    → (t : Sender) × (send_pass (begin_pass s).ahead answers (begin_pass s) ≡ some t)
      × Passed s.passed s t
unfolding begin_pass of_conn
send_pass-Passed answers s counted nonempty ended alive all =
    let s' = begin_pass s in
    let some_count : ltb 0 s.m_send_list_cnt ≡ true =
      lt→ltb _ _ (omega (arith, counted, nonempty)) in
    let none_passed : s'.passed ≡ [] = rw some_count refl in
    let found : s'.ahead ≡ s.passed = rw (some_count, ended) (append-nil s.passed) in
    let (t, reached, r) =
      send_pass-Round s'.ahead answers s'
        (record {
          counted = omega (arith, counted, ap length none_passed, ap length found);
          waits = λ c. inl (ap (of_conn c) none_passed);
          alive = alive;
        })
        refl (subst (AllPresent s.conn) (sym found) all) in
    (t, reached, Round-Passed s t none_passed found r)
