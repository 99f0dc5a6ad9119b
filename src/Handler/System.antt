-- ===== src/Handler/System.antt =====
-- The event loop, the read handlers and the pool together: net/mgx_socket_request.cpp and
-- net/mgx_socket_conn.cpp under any order of accepted connections, read events, closing and recovery.
use my_gx.Base.{ℕ, ◌<◌, true, some, length, ◌==◌, ◌≡◌, ◌≢◌, sym, subst, arith, inl, inr, Bool-cases}
use my_gx.Conn.{Conn, pkg_hdr_buf_size}
use my_gx.Pool.{Pool, store, get_conn, insert_recy_conn_queue, close_conn, reclaim, is_over}
use my_gx.Pool.Inv.{Inv, InUse, occ, insert_recy-Inv, close_conn-Inv, reclaim-Inv}
use my_gx.Pool.Step.{Opened-Inv}
use my_gx.Pool.Kept.{
  store-buffers, AllBuffers, GivenUp, insert_recy-GivenUp, close_conn-GivenUp, reclaim-GivenUp,
  get_conn-IsFresh,
}
use my_gx.Receive.{read_chunk}
use my_gx.Receive.State.{Receiving, hdr, body, Fits, IsStamped}
use my_gx.Receive.Refine.{step-Steps}
use my_gx.Handler.{
  Recv, got, shut_down, not_now, failed, read_request_handler, recv_process, after_recv,
}

-- The pool is well formed, and every connection in use is in a receiving state.
pub record Sound (p : Pool) : Type 0 where
  pub inv : Inv p
  pub buffers : AllBuffers p
  pub receiving : (a : ℕ) → InUse a p → Receiving a (p.conn a)

pub GivenUp-Sound : (c : ℕ) (p q : Pool) → Sound p → GivenUp c p q → Inv q → Sound q
GivenUp-Sound c p q s g v = record {
  inv = v;
  buffers = g.kept.buffers s.buffers;
  receiving = λ a u. elim (Bool-cases (a == c)) [
    | inl same ↦ absurd (g.gone (subst (λ b. InUse b q) (ground arith) u))
    | inr other ↦
        let ne : a ≢ c = ground arith in
        subst (Receiving a) (sym (g.kept.conns a ne)) (s.receiving a (g.kept.in_use a ne u))
  ];
}

receiving-buffer : {addr : ℕ} (c : Conn) → Receiving addr c → length c.hdr_buf ≡ pkg_hdr_buf_size
receiving-buffer c (hdr k s) = s.size
receiving-buffer c (body k m s) = s.hdr_size

-- A connection may be replaced by one in a receiving state.
pub stored-Sound :
    (c : ℕ) (d : Conn) (p : Pool)
    → Sound p
    → Receiving c d
    → Sound (record p { conn = store c d p.conn })
stored-Sound c d p s r = record {
  inv = record {
    free_count = s.inv.free_count;
    recy_count = s.inv.recy_count;
    total_count = s.inv.total_count;
    all_made = s.inv.all_made;
    once = s.inv.once;
  };
  buffers = store-buffers c d p.conn s.buffers (receiving-buffer d r);
  receiving = λ a u. elim (Bool-cases (a == c)) [
    | inl same ↦ let e : c ≡ a = ground arith in rw same (subst (λ b. Receiving b d) e r)
    | inr other ↦ rw other (s.receiving a (record { made = u.made; busy = u.busy }))
  ];
}

-- What recv can do: it stores no more than it was asked for, and no less than one byte.
abbrev pub RecvFits : Recv → Conn → Type 0
RecvFits (got chunk) c = Fits chunk c
RecvFits shut_down c = Unit {0}
RecvFits not_now c = Unit {0}
RecvFits failed c = Unit {0}

-- A read event leaves the system sound, and a message that it hands on is stamped with the
-- connection and its present sequence number.
pub read_request_handler-Sound :
    (garbage now c : ℕ) (r : Recv) (p : Pool)
    → Sound p
    → InUse c p
    → RecvFits r (p.conn c)
    → Sound (read_request_handler garbage now c r p).0
      × IsStamped c (p.conn c).m_cur_seq (read_request_handler garbage now c r p).1
unfolding read_request_handler recv_process after_recv
read_request_handler-Sound garbage now c (got chunk) p s u f =
    let (c', out) = read_chunk garbage c chunk (p.conn c) in
    let st = step-Steps garbage c chunk (p.conn c) (s.receiving c u) f in
    (stored-Sound c c' p s st.next, st.stamped)
read_request_handler-Sound garbage now c shut_down p s u f = (
  GivenUp-Sound c p (insert_recy_conn_queue now c p) s (insert_recy-GivenUp now c p u)
      (insert_recy-Inv now c p s.inv (record { made = u.made; not_free = omega (arith, u.busy) })),
  tt,
)
read_request_handler-Sound garbage now c not_now p s u f = (s, tt)
read_request_handler-Sound garbage now c failed p s u f =
    (GivenUp-Sound c p (close_conn c p) s (close_conn-GivenUp c p) (close_conn-Inv c p s.inv u), tt)

pub accepted-Sound :
    (now fd c : ℕ) (p q : Pool) → Sound p → get_conn now fd p ≡ some (c, q) → Sound q
accepted-Sound now fd c p q s e =
    let f = get_conn-IsFresh now fd c p q e in
    let buffers = f.kept.buffers s.buffers in
    record {
      inv = (Opened-Inv now fd c p q s.inv e).inv;
      buffers = buffers;
      receiving = λ a u. elim (Bool-cases (a == c)) [
        | inl same ↦
            let e : c ≡ a = ground arith in
            subst (λ b. Receiving b (q.conn b)) e
              (hdr 0 (record {
                stat = f.stat;
                ptr = f.ptr;
                rest = omega (arith, f.rest);
                some_rest = omega (arith, f.rest);
                size = buffers c;
              }))
        | inr other ↦
            let ne : a ≢ c = ground arith in
            subst (Receiving a) (sym (f.kept.conns a ne)) (s.receiving a (f.kept.in_use a ne u))
      ];
    }

-- One event, from a pool to the next.
pub data Event (garbage : ℕ) (p q : Pool) : Type 0 where
  accepts : (now fd c : ℕ) → get_conn now fd p ≡ some (c, q) → Event garbage p q
  reads :
      (now c : ℕ) (r : Recv)
      → InUse c p
      → RecvFits r (p.conn c)
      → q ≡ (read_request_handler garbage now c r p).0
      → Event garbage p q
  recycles : (now c : ℕ) → InUse c p → q ≡ insert_recy_conn_queue now c p → Event garbage p q
  closes : (c : ℕ) → InUse c p → q ≡ close_conn c p → Event garbage p q
  reclaims :
      (now c : ℕ)
      → 0 < occ c p.recy_conn_set
      → is_over now c p ≡ true
      → q ≡ reclaim c p
      → Event garbage p q

pub data Events (garbage : ℕ) (p : Pool) : Pool → Type 0 where
  none_yet : Events garbage p p
  followed_by : {q r : Pool} → Events garbage p q → Event garbage q r → Events garbage p r

Event-Sound : (garbage : ℕ) (p q : Pool) → Event garbage p q → Sound p → Sound q
Event-Sound garbage p q (accepts now fd c e) s = accepted-Sound now fd c p q s e
Event-Sound garbage p q (reads now c r u f e) s =
    rw e (read_request_handler-Sound garbage now c r p s u f).0
Event-Sound garbage p q (recycles now c u e) s = rw e (
    GivenUp-Sound c p (insert_recy_conn_queue now c p) s (insert_recy-GivenUp now c p u)
      (insert_recy-Inv now c p s.inv (record { made = u.made; not_free = omega (arith, u.busy) })))
Event-Sound garbage p q (closes c u e) s =
    rw e
      (GivenUp-Sound c p (close_conn c p) s (close_conn-GivenUp c p) (close_conn-Inv c p s.inv u))
Event-Sound garbage p q (reclaims now c h _ e) s =
    rw e (GivenUp-Sound c p (reclaim c p) s (reclaim-GivenUp c p h) (reclaim-Inv c p s.inv h))

-- Whatever connections are accepted, and in whatever order those in use are read, closed and given to
-- recovery, and those in recovery whose time is over are taken back: the pool stays well formed and
-- every connection in use stays in a receiving state. That a handler runs only for a connection in
-- use is a condition on each event.
pub Events-Sound : (garbage : ℕ) (p q : Pool) → Events garbage p q → Sound p → Sound q
Events-Sound garbage p q none_yet s = s
Events-Sound garbage p q (followed_by {q = m} r e) s =
    Event-Sound garbage m q e (Events-Sound garbage p m r s)
