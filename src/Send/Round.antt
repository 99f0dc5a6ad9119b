-- ===== src/Send/Round.antt =====
-- The rounds of send_msg_th_func in net/mgx_socket.cpp, for a message of the present use.
use my_gx.Base.{
  ℕ, ◌+◌, ◌<◌, List, [], ◌∷◌, ◌++◌, append_assoc, length, length-append, Bool, true, false, ◌==◌,
  ==_self, ==_ne, if◌then◌else◌, ◌≡◌, ◌≢◌, ◌⊎◌, refl, subst, append-nil, sym, ap, ◌∙◌, Bool-cases,
  inl, inr, arith,
}
use my_gx.Conn.{Conn, MsgBuf}
use my_gx.Send.{Sender, SendCalls, begin_message, ready_message, send_uninterrupt}
use my_gx.Send.Frame.{AtConn, after_send-AtConn}

eq_of : (a b : ℕ) → (a == b) ≡ true → a ≡ b
eq_of a b h = ground arith

ne_of : (a b : ℕ) → (a == b) ≡ false → a ≢ b
ne_of a b h = ground arith

-- The messages of one connection.
unfoldable pub of_conn : ℕ → List MsgBuf → List MsgBuf
of_conn c [] = []
of_conn c (m ∷ ms) = if m.pconn == c then m ∷ of_conn c ms else of_conn c ms

of_conn-append : (c : ℕ) (xs ys : List MsgBuf) → of_conn c (xs ++ ys) ≡ of_conn c xs ++ of_conn c ys
unfolding of_conn
of_conn-append c [] ys = refl
of_conn-append c (m ∷ xs) ys = elim (Bool-cases (m.pconn == c)) [
  | inl its ↦ rw its (ap (◌∷◌ m) (of_conn-append c xs ys))
  | inr other ↦ rw other (of_conn-append c xs ys)
]

-- The queue between two rounds: it is counted, no buffer in it is deleted, and a connection with a
-- message that was passed over is still sending.
pub record Queue (s : Sender) : Type 0 where
  pub counted : s.m_send_list_cnt ≡ length s.passed + length s.ahead
  pub waits : (c : ℕ) → (of_conn c s.passed ≡ []) ⊎ (0 < (s.conn c).throw_send_cnt)
  pub alive : s.deleted ≡ false

-- What rounds leave: of each connection the order of its messages, and all of a connection that is
-- still sending.
pub record Advances (s t : Sender) : Type 0 where
  pub order :
      (c : ℕ)
      → of_conn c (t.begun ++ (t.passed ++ t.ahead)) ≡ of_conn c (s.begun ++ (s.passed ++ s.ahead))
  pub same_seq : (a : ℕ) → (t.conn a).m_cur_seq ≡ (s.conn a).m_cur_seq
  pub busy : (a : ℕ) → 0 < (s.conn a).throw_send_cnt → t.conn a ≡ s.conn a

pub record Round (rest : List MsgBuf) (s t : Sender) : Type 0 where
  pub moved : t.ahead ≡ rest
  pub queue : Queue t
  pub advances : Advances s t

of_conn-three :
    (c : ℕ) (xs ys zs : List MsgBuf)
    → of_conn c (xs ++ (ys ++ zs)) ≡ of_conn c xs ++ (of_conn c ys ++ of_conn c zs)
of_conn-three c xs ys zs =
    of_conn-append c xs (ys ++ zs) ∙ ap (◌++◌ (of_conn c xs)) (of_conn-append c ys zs)

of_conn_here :
    (c : ℕ) (m : MsgBuf) (ms : List MsgBuf) → m.pconn ≡ c → of_conn c (m ∷ ms) ≡ m ∷ of_conn c ms
unfolding of_conn
of_conn_here c m ms e = rw (e, ==_self c) refl

of_conn_other :
    (c : ℕ) (m : MsgBuf) (ms : List MsgBuf) → m.pconn ≢ c → of_conn c (m ∷ ms) ≡ of_conn c ms
unfolding of_conn
of_conn_other c m ms ne = rw (==_ne m.pconn c ne) refl

-- A message passed over.
pub skip-Round :
    (m : MsgBuf) (rest : List MsgBuf) (s : Sender)
    → Queue s
    → s.ahead ≡ m ∷ rest
    → 0 < (s.conn m.pconn).throw_send_cnt
    → Round rest s (record s { passed = s.passed ++ (m ∷ []); ahead = rest })
unfolding of_conn
skip-Round m rest s q e busy = record {
  moved = refl;
  queue = record {
    counted = omega (arith, q.counted, ap length e, length-append s.passed (m ∷ []));
    waits = λ c. elim (q.waits c) [
      | inr sending ↦ inr sending
      | inl none_passed ↦ elim (Bool-cases (m.pconn == c)) [
        | inl its ↦ inr (subst (λ c. 0 < (s.conn c).throw_send_cnt) (eq_of _ _ its) busy)
        | inr other ↦ inl (
            of_conn-append c s.passed (m ∷ [])
            ∙ ap (λ l. l ++ of_conn c (m ∷ [])) none_passed
            ∙ of_conn_other c m [] (ne_of _ _ other))
      ]
    ];
    alive = q.alive;
  };
  advances = record {
    order = λ c.
        ap (λ l. of_conn c (s.begun ++ l))
          (append_assoc s.passed (m ∷ []) rest ∙ ap (◌++◌ s.passed) (sym e));
    same_seq = λ a. refl;
    busy = λ a h. refl;
  };
}

begin_order :
    (c : ℕ) (m : MsgBuf) (xs ys zs : List MsgBuf)
    → (m.pconn ≡ c → of_conn c ys ≡ [])
    → of_conn c ((xs ++ (m ∷ [])) ++ (ys ++ zs)) ≡ of_conn c (xs ++ (ys ++ (m ∷ zs)))
unfolding of_conn
begin_order c m xs ys zs none_passed = elim (Bool-cases (m.pconn == c)) [
  | inl its ↦
      let e = eq_of _ _ its in
      rw
        (
          of_conn-three c (xs ++ (m ∷ [])) ys zs,
          of_conn-three c xs ys (m ∷ zs),
          of_conn-append c xs (m ∷ []),
          none_passed e,
          of_conn_here c m [] e,
          of_conn_here c m zs e,
        )
        (append_assoc (of_conn c xs) (m ∷ []) (of_conn c zs))
  | inr other ↦
      let ne = ne_of _ _ other in
      rw
        (
          of_conn-three c (xs ++ (m ∷ [])) ys zs,
          of_conn-three c xs ys (m ∷ zs),
          of_conn-append c xs (m ∷ []),
          of_conn_other c m [] ne,
          of_conn_other c m zs ne,
          append-nil (of_conn c xs),
        )
        refl
]

-- A message whose sending is begun.
pub begin-Round :
    (calls : SendCalls) (ctl_ok : Bool) (m : MsgBuf) (rest : List MsgBuf) (s : Sender)
    → Queue s
    → s.ahead ≡ m ∷ rest
    → (s.conn m.pconn).throw_send_cnt ≡ 0
    → Round rest s (begin_message calls ctl_ok m rest s)
unfolding begin_message ready_message
begin-Round calls ctl_ok m rest s q e idle =
    let sent = send_uninterrupt calls in
    let r = ready_message sent m rest s in
    let t = begin_message calls ctl_ok m rest s in
    let f : AtConn m.pconn r t = after_send-AtConn ctl_ok m.pconn sent r in
    let none_passed : (c : ℕ) → m.pconn ≡ c → of_conn c s.passed ≡ [] = λ c same.
      subst (λ d. of_conn d s.passed ≡ []) same
        (elim (q.waits m.pconn) [
          | inl none_passed ↦ none_passed
          | inr sending ↦ absurd (omega (arith, idle, sending))
        ]) in
    let kept : (a : ℕ) → a ≢ m.pconn → t.conn a ≡ s.conn a =
      λ a ne. f.others a ne ∙ rw (==_ne a m.pconn ne) refl in
    let seq_here : (t.conn m.pconn).m_cur_seq ≡ (s.conn m.pconn).m_cur_seq =
      f.same_seq ∙ rw (==_self m.pconn) refl in
    record {
      moved = f.ahead;
      queue = record {
        counted =
            omega (arith, f.count, q.counted, ap length e, ap length f.passed, ap length f.ahead);
        waits = λ c. elim (Bool-cases (c == m.pconn)) [
          | inl its ↦ inl (ap (of_conn c) f.passed ∙ none_passed c (sym (eq_of _ _ its)))
          | inr other ↦ elim (q.waits c) [
            | inl none_there ↦ inl (ap (of_conn c) f.passed ∙ none_there)
            | inr sending ↦ inr (
                subst (λ (d : Conn). 0 < d.throw_send_cnt) (sym (kept c (ne_of _ _ other))) sending)
          ]
        ];
        alive = f.deleted ∙ q.alive;
      };
      advances = record {
        order = λ c.
            rw (f.begun, f.passed, f.ahead, e)
              (begin_order c m s.begun s.passed rest (none_passed c));
        same_seq = λ a. elim (Bool-cases (a == m.pconn)) [
          | inl its ↦
              subst (λ b. (t.conn b).m_cur_seq ≡ (s.conn b).m_cur_seq) (sym (eq_of _ _ its))
                seq_here
          | inr other ↦ ap (λ (d : Conn). d.m_cur_seq) (kept a (ne_of _ _ other))
        ];
        busy = λ a h.
            kept a
              (λ same. absurd (omega (arith, idle, h, ap (λ b. (s.conn b).throw_send_cnt) same)));
      };
    }
