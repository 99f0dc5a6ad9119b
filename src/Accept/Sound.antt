-- ===== src/Accept/Sound.antt =====
-- The pool under the accept handler of net/mgx_socket_accept.cpp and under epoll_init.
use my_gx.Base.{
  ℕ, ◌+◌, List, ◌∷◌, Bool, true, false, Option, some, ==_self, if◌then◌else◌, ◌≡◌, refl, ap, ap₂,
  ◌∙◌, subst,
}
use my_gx.Conn.{Conn}
use my_gx.Timer.{Timer, TimerQueue, add_to_timer_queue}
use my_gx.Pool.{Pool, get_conn, close_conn}
use my_gx.Pool.Inv.{InUse, Opened, get_conn-Opened, close_conn-Inv}
use my_gx.Pool.Kept.{close_conn-GivenUp}
use my_gx.Pool.Fields.{Handed, get_conn-Handed, close_conn_closed}
use my_gx.Receive.State.{Receiving, hdr, body}
use my_gx.Handler.System.{Sound, stored-Sound, accepted-Sound, GivenUp-Sound}
use my_gx.Epoll.{epoll_oper_event, switch_events, after_switch, epoll_in, epoll_rdhup}
use my_gx.Accept.{
  AcceptError, AcceptAnswer, conn_fd, failed, Net, accept_retry, add_to_epoll, start_timer, set_up,
  with_conn, after_accept, event_accept,
}

-- The state of receiving does not depend on the events.
Receiving-events : (a e : ℕ) (c : Conn) → Receiving a c → Receiving a (record c { events = e })
Receiving-events a e c (hdr k s) =
    hdr k
      (record { stat = s.stat; ptr = s.ptr; rest = s.rest; some_rest = s.some_rest; size = s.size })
Receiving-events a e c (body k m s) = body k m (record {
  stat = s.stat;
  ptr = s.ptr;
  mem = s.mem;
  from = s.from;
  rest = s.rest;
  some_rest = s.some_rest;
  size = s.size;
  good = s.good;
  stamped = s.stamped;
  hdr_size = s.hdr_size;
})

pub add_to_epoll-Sound :
    (ctl_ok : Bool) (fd c : ℕ) (s : Net)
    → Sound s.pool
    → InUse c s.pool
    → Sound (add_to_epoll ctl_ok fd c s).1.pool
unfolding add_to_epoll epoll_oper_event switch_events after_switch
add_to_epoll-Sound ctl_ok fd c s sound used =
    stored-Sound c _ s.pool sound (Receiving-events c _ (s.pool.conn c) (sound.receiving c used))

timers-Sound : (p : Pool) (q : TimerQueue) → Sound p → Sound (record p { timers = q })
timers-Sound p q s = record {
  inv = record {
    free_count = s.inv.free_count;
    recy_count = s.inv.recy_count;
    total_count = s.inv.total_count;
    all_made = s.inv.all_made;
    once = s.inv.once;
  };
  buffers = s.buffers;
  receiving = λ a u. s.receiving a (record { made = u.made; busy = u.busy });
}

-- What has become of an attempt to accept a connection, by what accept4 or accept answered and whether
-- epoll_ctl succeeds.
pub data Attempt (now wait : ℕ) (got : AcceptAnswer) (ctl_ok : Bool) (s t : Net) : Type 0 where
  -- There was none.
  nothing : (e : AcceptError) → got ≡ failed e → t.pool ≡ s.pool → Attempt now wait got ctl_ok s t
  -- It was closed, since epoll does not take it.
  closed :
      (fd c : ℕ)
      → got ≡ conn_fd fd
      → ctl_ok ≡ false
      → t.pool.closed ≡ some fd ∷ s.pool.closed
      → ¬ InUse c s.pool
      → Attempt now wait got ctl_ok s t
  -- It is in use, nobody had the connection before, and it is watched for reading and timed.
  taken :
      (fd c : ℕ)
      → got ≡ conn_fd fd
      → ctl_ok ≡ true
      → ¬ InUse c s.pool
      → InUse c t.pool
      → (t.pool.conn c).fd ≡ some fd
      → (t.pool.conn c).events ≡ epoll_in + epoll_rdhup
      → t.pool.closed ≡ s.pool.closed
      → t.pool.timers ≡ (
          if s.pool.enabled_heartbeat
          then add_to_timer_queue now wait
              (record { pconn = c; cur_seq = (t.pool.conn c).m_cur_seq })
              s.pool.timers
          else s.pool.timers)
      → Attempt now wait got ctl_ok s t

pub record Accepts (now wait : ℕ) (got : AcceptAnswer) (ctl_ok : Bool) (s t : Net) : Type 0 where
  pub sound : Sound t.pool
  pub attempt : Attempt now wait got ctl_ok s t

pub used-add_to_epoll :
    (ctl_ok : Bool) (fd c : ℕ) (s : Net)
    → InUse c s.pool
    → InUse c (add_to_epoll ctl_ok fd c s).1.pool
unfolding add_to_epoll
used-add_to_epoll ctl_ok fd c s u = record { made = u.made; busy = u.busy }

refused-Accepts :
    (now wait fd c : ℕ) (s t : Net)
    → Sound t.pool
    → Opened c s.pool t.pool
    → Handed fd c s.pool t.pool
    → Accepts now wait (conn_fd fd) false s (set_up now wait false fd c t)
unfolding set_up add_to_epoll epoll_oper_event switch_events after_switch
refused-Accepts now wait fd c s t sound o h =
    let t' = record t { nonblock = fd ∷ t.nonblock } in
    let q = (add_to_epoll false fd c t').1.pool in
    let sound' : Sound q = add_to_epoll-Sound false fd c t' sound o.used in
    record {
      sound =
          GivenUp-Sound c q (close_conn c q) sound' (close_conn-GivenUp c q)
            (close_conn-Inv c q sound'.inv (used-add_to_epoll false fd c t' o.used));
      attempt =
          closed fd c refl refl
            (close_conn_closed c q
              ∙ ap₂ (λ (x : Option ℕ) (l : List (Option ℕ)). x ∷ l) (rw (==_self c) h.its_fd)
                  h.closed)
            o.was_idle;
    }

accepted-Accepts :
    (now wait fd c : ℕ) (s t : Net)
    → Sound t.pool
    → Opened c s.pool t.pool
    → Handed fd c s.pool t.pool
    → Accepts now wait (conn_fd fd) true s (set_up now wait true fd c t)
unfolding set_up start_timer add_to_epoll epoll_oper_event switch_events after_switch
accepted-Accepts now wait fd c s t sound o h =
    let t' = record t { nonblock = fd ∷ t.nonblock } in
    let q = (add_to_epoll true fd c t').1.pool in
    let sound' : Sound q = add_to_epoll-Sound true fd c t' sound o.used in
    let used = used-add_to_epoll true fd c t' o.used in
    let timer : Timer = record { pconn = c; cur_seq = (q.conn c).m_cur_seq } in
    record {
      sound = timers-Sound q _ sound';
      attempt =
          taken fd c refl refl o.was_idle (record { made = used.made; busy = used.busy })
            (rw (==_self c) h.its_fd) (rw (==_self c) refl) h.closed
            (ap₂
              (λ (heartbeat : Bool) (queue : TimerQueue).
                if heartbeat then add_to_timer_queue now wait timer queue else queue)
              h.heartbeat h.timers);
    }

set_up-Accepts :
    (now wait : ℕ) (ctl_ok : Bool) (fd c : ℕ) (s t : Net)
    → Sound t.pool
    → Opened c s.pool t.pool
    → Handed fd c s.pool t.pool
    → Accepts now wait (conn_fd fd) ctl_ok s (set_up now wait ctl_ok fd c t)
set_up-Accepts now wait false fd c s t sound o h = refused-Accepts now wait fd c s t sound o h
set_up-Accepts now wait true fd c s t sound o h = accepted-Accepts now wait fd c s t sound o h

with_conn-some :
    (now wait : ℕ) (ctl_ok : Bool) (fd c : ℕ) (o : Option (ℕ × Pool)) (q : Pool) (s : Net)
    → o ≡ some (c, q)
    → with_conn now wait ctl_ok fd o s ≡ some (set_up now wait ctl_ok fd c (record s { pool = q }))
unfolding with_conn
with_conn-some now wait ctl_ok fd c o q s e = ap (λ o. with_conn now wait ctl_ok fd o s) e

of_pool :
    (now wait : ℕ) (got : AcceptAnswer) (ctl_ok : Bool) (s t r : Net)
    → Attempt now wait got ctl_ok s t
    → Attempt now wait got ctl_ok (record r { pool = s.pool }) t
of_pool now wait got ctl_ok s t r (nothing e its same) = nothing e its same
of_pool now wait got ctl_ok s t r (closed fd c its bad e idle) = closed fd c its bad e idle
of_pool now wait got ctl_ok s t r (taken fd c its ok idle used its_fd events kept timers) =
    taken fd c its ok idle used its_fd events kept timers

-- An attempt is about the pool only.
same_pool :
    (now wait : ℕ) (got : AcceptAnswer) (ctl_ok : Bool) (s s' t : Net)
    → s'.pool ≡ s.pool
    → Accepts now wait got ctl_ok s' t
    → Accepts now wait got ctl_ok s t
same_pool now wait got ctl_ok s s' t e a = record {
  sound = a.sound;
  attempt =
      subst (λ p. Attempt now wait got ctl_ok (record s { pool = p }) t) e
        (of_pool now wait got ctl_ok s' t s a.attempt);
}

after_accept-Accepts :
    (now wait : ℕ) (ctl_ok : Bool) (got : AcceptAnswer) (s : Net)
    → Sound s.pool
    → (t : Net) × (after_accept now wait ctl_ok got s ≡ some t) × Accepts now wait got ctl_ok s t
unfolding after_accept
after_accept-Accepts now wait ctl_ok (failed e) s sound =
    (s, refl, record { sound = sound; attempt = nothing e refl refl })
after_accept-Accepts now wait ctl_ok (conn_fd fd) s sound =
    let (c, q, e, o) = get_conn-Opened now fd s.pool sound.inv in
    let t = record s { pool = q } in
    (
      set_up now wait ctl_ok fd c t,
      with_conn-some now wait ctl_ok fd c (get_conn now fd s.pool) q s e,
      set_up-Accepts now wait ctl_ok fd c s t (accepted-Sound now fd c s.pool q sound e) o
          (get_conn-Handed now fd c s.pool q e),
    )

-- The accept handler on a well-formed pool, with every connection in use in a receiving state, ends
-- whatever accept4, accept and epoll_ctl answer, and leaves it so. Where the call that counts fails,
-- the pool is as it was. Where it returns a descriptor and epoll_ctl fails, this descriptor is
-- closed. Where it returns a descriptor and epoll_ctl succeeds, nothing is closed, and a connection
-- that nobody had is in use with the descriptor, watched for reading, and with a timer where
-- heartbeats are enabled.
pub event_accept-Accepts :
    (now wait : ℕ) (answer4 answer : AcceptAnswer) (ctl_ok : Bool) (s : Net)
    → Sound s.pool
    → (t : Net) × (event_accept now wait answer4 answer ctl_ok s ≡ some t)
      × Accepts now wait (accept_retry s.use_accept4 answer4 answer).0 ctl_ok s t
unfolding event_accept
event_accept-Accepts now wait answer4 answer ctl_ok s sound =
    let r = accept_retry s.use_accept4 answer4 answer in
    let s' = record s { use_accept4 = r.1 } in
    let (t, e, a) = after_accept-Accepts now wait ctl_ok r.0 s' sound in
    (t, e, same_pool now wait r.0 ctl_ok s s' t refl a)
