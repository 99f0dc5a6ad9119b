-- ===== src/Accept/Examples.antt =====
-- Instances for the accept handler of net/mgx_socket_accept.cpp.
use my_gx.Base.{[], true, false, some, ◌≡◌, refl, arith}
use my_gx.Pool.{blank}
use my_gx.Pool.Inv.{occ}
use my_gx.Handler.System.{Sound}
use my_gx.Accept.{Net, event_accept, accept_retry, conn_fd, failed, enosys}
use my_gx.Accept.Sound.{Accepts, event_accept-Accepts}

abbrev net : Net
net = record {
  pool = record {
    conn = λ a. blank;
    next = 0;
    pconns_queue = [];
    pconns_free_queue = [];
    recy_conn_set = [];
    total_conns_cnt = 0;
    free_conns_cnt = 0;
    total_recy_conns_cnt = 0;
    recy_conn_wait_time = 60;
    enabled_heartbeat = true;
    timers = record { entries = []; size = 0; head_time = 0 };
    closed = [];
  };
  use_accept4 = true;
  nonblock = [];
  ctl_calls = [];
}

-- On a system without accept4 the handler tries accept, and remembers it.
no_accept4 : accept_retry true (failed enosys) (conn_fd 5) ≡ (conn_fd 5, false)
unfolding accept_retry
no_accept4 = refl

net-Sound : Sound net.pool
unfolding occ blank
net-Sound = record {
  inv = record {
    free_count = refl;
    recy_count = refl;
    total_count = refl;
    all_made = refl;
    once = λ a. omega arith;
  };
  buffers = λ a. refl;
  receiving = λ a u. absurd (omega (arith, u.made));
}

event_accept-Accepts_example :
    (t : Net) × (event_accept 100 5 (failed enosys) (conn_fd 7) true net ≡ some t)
    × Accepts 100 5 (conn_fd 7) true net t
unfolding accept_retry
event_accept-Accepts_example =
    event_accept-Accepts 100 5 (failed enosys) (conn_fd 7) true net net-Sound
