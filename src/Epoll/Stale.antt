-- ===== src/Epoll/Stale.antt =====
-- Which events run a handler in epoll_process_events of net/mgx_socket.cpp, and how the pool of
-- net/mgx_socket_conn.cpp decides it.
use my_gx.Base.{
  ℕ, ◌^◌, ◌<◌, Bool, true, false, not, ◌||◌, Option, none, some, ◌==◌, if◌then◌else◌, if-not, ◌≡◌,
  refl, sym, ap, ◌∙◌,
}
use mathlib.Core.Option.{some-injective}
use my_gx.Conn.{Conn}
use my_gx.Epoll.{
  tagged, EpollEvent, CtlCall, EsModAction, epoll_oper_event, switch_events, after_switch,
  is_closed, is_stale, run_handlers, process_event,
}
use my_gx.Epoll.Tag.{bit_of, tag_of-tagged, conn_at-tagged}
use my_gx.Pool.{Pool, get_conn, close_conn, insert_recy_conn_queue}
use my_gx.Pool.Fields.{reused_bit, close_conn_fd, insert_recy_fd, insert_recy_bit}

same_bit : Bool → Bool → Bool
same_bit true b = b
same_bit false b = not b

same_bit_test : (a b : Bool) → (bit_of a == bit_of b) ≡ same_bit a b
unfolding same_bit
same_bit_test true true = refl
same_bit_test true false = refl
same_bit_test false true = refl
same_bit_test false false = refl

-- The handlers run only for the use of the connection that the event was asked for in.
unfoldable pub heard : Bool → Conn → Bool
unfolding is_closed same_bit
heard b c = not (is_closed c.fd || not (same_bit c.instance_bit b))

module _ {ℓ} {S : Type ℓ} (conn : S → ℕ → Conn) (r_handler w_handler : ℕ → S → S) where
  pub process_event-tagged :
      (a : ℕ) (b : Bool) (events : ℕ) (s : S)
      → a < 2 ^ 60
      → process_event conn r_handler w_handler (record { events = events; ptr = tagged a b }) s
        ≡ (if heard b (conn s a) then run_handlers conn r_handler w_handler a events s else s)
  unfolding process_event is_stale heard
  process_event-tagged a b events s h =
      rw (conn_at-tagged a b h, tag_of-tagged a b, same_bit_test (conn s a).instance_bit b)
        (if-not (is_closed (conn s a).fd || not (same_bit (conn s a).instance_bit b)) s
          (run_handlers conn r_handler w_handler a events s))

-- An event that epoll_oper_event asked for on the connection `a`, as it was at that time.
pub record Asked (a : ℕ) (d : Conn) (ev : EpollEvent) : Type 0 where
  pub in_memory : a < 2 ^ 60
  pub ptr : ev.ptr ≡ tagged a d.instance_bit

-- What epoll_oper_event hands to epoll_ctl comes back as such an event.
pub epoll_oper_event-Asked :
    (ctl_ok : Bool) (fd : Option ℕ) (e_type es : ℕ) (act : EsModAction) (a : ℕ) (d d' : Conn)
    (call : CtlCall) (events : ℕ)
    → a < 2 ^ 60
    → epoll_oper_event ctl_ok fd e_type es act a d ≡ (ctl_ok, d', some call)
    → Asked a d (record { events = events; ptr = call.event.ptr })
unfolding epoll_oper_event after_switch
epoll_oper_event-Asked ctl_ok fd e_type es act a d d' call events h e =
    asked (switch_events e_type es act d.events) e
  where
    asked :
        (o : Option (ℕ × ℕ))
        → after_switch ctl_ok fd e_type a d o ≡ (ctl_ok, d', some call)
        → Asked a d (record { events = events; ptr = call.event.ptr })
    asked none e = absurd (cc e)
    asked (some (kept, told)) e = record {
      in_memory = h;
      ptr = ap (λ (c : CtlCall). c.event.ptr) (some-injective _ _ (sym (ap (λ r. r.2) e)));
    }

-- How the use `d` of the connection `a` has come to its end in the pool `q`: it was closed, and has no
-- descriptor since; or it was taken from the queue of free connections for its next use, with the
-- instance bit of `d` until then, and has the bit of that use since.
pub data Ended (a : ℕ) (d : Conn) (q : Pool) : Type 0 where
  closed : (p : Pool) → (q.conn a).fd ≡ ((close_conn a p).conn a).fd → Ended a d q
  reused :
      (now fd : ℕ) (p r : Pool)
      → (p.conn a).instance_bit ≡ d.instance_bit
      → 0 < p.free_conns_cnt
      → get_conn now fd p ≡ some (a, r)
      → (q.conn a).instance_bit ≡ (r.conn a).instance_bit
      → Ended a d q

other_bit : (b c gone : Bool) → c ≡ not b → not (gone || not (same_bit c b)) ≡ false
unfolding same_bit
other_bit true true gone e = cc
other_bit true false true e = refl
other_bit true false false e = refl
other_bit false true true e = refl
other_bit false true false e = refl
other_bit false false gone e = cc

not_heard : (a : ℕ) (d : Conn) (q : Pool) → Ended a d q → heard d.instance_bit (q.conn a) ≡ false
unfolding heard is_closed
not_heard a d q (closed p e) = rw (e ∙ close_conn_fd a p) refl
not_heard a d q (reused now fd p r its free e since) =
    other_bit d.instance_bit (q.conn a).instance_bit (is_closed (q.conn a).fd)
      (since ∙ reused_bit now fd a p r free e ∙ ap not its)

still_heard :
    (c d : Conn) (fd : ℕ)
    → c.fd ≡ some fd
    → d.fd ≡ c.fd
    → d.instance_bit ≡ c.instance_bit
    → heard c.instance_bit d ≡ true
unfolding heard is_closed same_bit
still_heard c d fd e same_fd same = rw (same_fd ∙ e, same) (itself c.instance_bit)
  where
    itself : (b : Bool) → not (not (same_bit b b)) ≡ true
    itself true = refl
    itself false = refl

module _ (r_handler w_handler : ℕ → Pool → Pool) where
  process_event-Asked :
      (a : ℕ) (d : Conn) (ev : EpollEvent) (p : Pool)
      → Asked a d ev
      → process_event (λ p. p.conn) r_handler w_handler ev p ≡ (
          if heard d.instance_bit (p.conn a)
          then run_handlers (λ p. p.conn) r_handler w_handler a ev.events p
          else p)
  process_event-Asked a d ev p asked =
      ap
        (λ (t : ℕ).
          process_event (λ p. p.conn) r_handler w_handler (record { events = ev.events; ptr = t })
            p)
        asked.ptr
      ∙ process_event-tagged (λ p. p.conn) r_handler w_handler a d.instance_bit ev.events p
          asked.in_memory

  -- An event that was asked for in a use of a connection runs no handler and changes nothing, whatever
  -- its handlers do, once close_conn has ended this use and as long as the connection has no
  -- descriptor, and also in its next use. Since the tag is one bit, nothing is said of the use after
  -- the next.
  pub Ended-unheard :
      (a : ℕ) (d : Conn) (ev : EpollEvent) (q : Pool)
      → Asked a d ev
      → Ended a d q
      → process_event (λ p. p.conn) r_handler w_handler ev q ≡ q
  Ended-unheard a d ev q asked ended =
      process_event-Asked a d ev q asked ∙ rw (not_heard a d q ended) refl

  -- An event of a connection that was given to delayed recovery still runs its handlers: its
  -- descriptor is closed, but the field stays set.
  pub insert_recy-heard :
      (now a fd : ℕ) (ev : EpollEvent) (p : Pool)
      → Asked a (p.conn a) ev
      → (p.conn a).fd ≡ some fd
      → let q = insert_recy_conn_queue now a p in
        process_event (λ p. p.conn) r_handler w_handler ev q
        ≡ run_handlers (λ p. p.conn) r_handler w_handler a ev.events q
  insert_recy-heard now a fd ev p asked e =
      let q = insert_recy_conn_queue now a p in
      process_event-Asked a (p.conn a) ev q asked
      ∙ rw
          (still_heard (p.conn a) (q.conn a) fd e (insert_recy_fd now a p)
            (insert_recy_bit now a p))
          refl
