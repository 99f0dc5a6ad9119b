-- ===== src/Epoll/Examples.antt =====
-- Tests and instances for the events of net/mgx_socket.cpp.
use my_gx.Base.{none, List, ℕ, [], ◌∷◌, true, false, some, ◌≡◌, refl, arith}
use my_gx.Conn.{Conn}
use my_gx.Pool.{Pool, blank, close_conn, insert_recy_conn_queue}
use my_gx.Epoll.{
  EpollEvent, epoll_in, tagged, process_event, run_handlers, epoll_process_events, got,
}
use my_gx.Epoll.Stale.{Asked, heard, closed, process_event-tagged, Ended-unheard, insert_recy-heard}

abbrev open_conn : Conn
open_conn = record blank { fd = some 9; instance_bit = true; events = 0x2001 }

abbrev pool : Pool
pool = record {
  conn = λ c. open_conn;
  next = 4;
  pconns_queue = 0 ∷ 1 ∷ 2 ∷ 3 ∷ [];
  pconns_free_queue = [];
  recy_conn_set = [];
  total_conns_cnt = 4;
  free_conns_cnt = 0;
  total_recy_conns_cnt = 0;
  recy_conn_wait_time = 80;
  enabled_heartbeat = false;
  timers = record { entries = []; size = 0; head_time = 0 };
  closed = [];
}

-- Handlers that close their connection.
abbrev closing : ℕ → Pool → Pool
closing c p = close_conn c p

abbrev event : EpollEvent
event = record { events = epoll_in; ptr = 49 }

process_event-tagged_example :
    process_event
      (λ p. p.conn)
      closing
      closing
      (record { events = epoll_in; ptr = tagged 3 true })
      pool
    ≡ run_handlers (λ p. p.conn) closing closing 3 epoll_in pool
unfolding heard blank
process_event-tagged_example =
    process_event-tagged (λ p. p.conn) closing closing 3 true epoll_in pool (omega arith)

event-Asked : Asked 3 open_conn event
unfolding tagged
event-Asked = record { in_memory = omega arith; ptr = refl }

Ended-unheard_example :
    process_event (λ p. p.conn) closing closing event (close_conn 3 pool) ≡ close_conn 3 pool
Ended-unheard_example =
    Ended-unheard closing closing 3 open_conn event (close_conn 3 pool) event-Asked
      (closed pool refl)

insert_recy-heard_example :
    let q = insert_recy_conn_queue 100 3 pool in
    process_event (λ p. p.conn) closing closing event q
    ≡ run_handlers (λ p. p.conn) closing closing 3 epoll_in q
unfolding blank
insert_recy-heard_example = insert_recy-heard closing closing 100 3 9 event pool event-Asked refl

-- A state that lists the connections whose handler ran, and in which a connection is closed by its
-- handler.
abbrev conns : List ℕ → ℕ → Conn
conns [] a = open_conn
conns (c ∷ ran) a = record open_conn { fd = none }

-- Of two events of a connection the first closes it, and the second is stale.
two_events :
    epoll_process_events conns
      (λ c ran. c ∷ ran)
      (λ c ran. c ∷ ran)
      false
      (got (event ∷ event ∷ []))
      []
    ≡ (true, 3 ∷ [])
unfolding epoll_process_events tagged
two_events = refl
