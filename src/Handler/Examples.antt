-- ===== src/Handler/Examples.antt =====
-- Instances for the read handler of net/mgx_socket_request.cpp on a pool.
use my_gx.Base.{ℕ, [], true, some, ◌≡◌, refl, arith}
use my_gx.Pool.{Pool, blank, get_conn}
use my_gx.Pool.Inv.{Inv, Opened, occ, get_conn-Opened}
use my_gx.Handler.System.{Sound, Events, none_yet, followed_by, accepts, Events-Sound}

abbrev empty : Pool
empty = record {
  conn = λ a. blank;
  next = 0;
  pconns_queue = [];
  pconns_free_queue = [];
  recy_conn_set = [];
  total_conns_cnt = 0;
  free_conns_cnt = 0;
  total_recy_conns_cnt = 0;
  recy_conn_wait_time = 60;
  enabled_heartbeat = true;
  timers = record { entries = []; size = 0; head_time = 0 };
  closed = [];
}

empty-Inv : Inv empty
unfolding occ
empty-Inv = record {
  free_count = refl;
  recy_count = refl;
  total_count = refl;
  all_made = refl;
  once = λ a. omega arith;
}

empty-Sound : Sound empty
unfolding blank
empty-Sound = record {
  inv = empty-Inv;
  buffers = λ a. refl;
  receiving = λ a u. absurd (omega (arith, u.made));
}

-- The descriptor 30 is accepted at the time 5.
abbrev accepted : (c : ℕ) × (q : Pool) × (get_conn 5 30 empty ≡ some (c, q)) × Opened c empty q
accepted = get_conn-Opened 5 30 empty empty-Inv

abbrev accepted_run : Events 0 empty accepted.1
accepted_run = followed_by none_yet (accepts 5 30 accepted.0 accepted.2)

Events-Sound_example : Sound accepted.1
Events-Sound_example = Events-Sound 0 empty accepted.1 accepted_run empty-Sound
