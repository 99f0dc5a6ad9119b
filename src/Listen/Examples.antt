-- ===== src/Listen/Examples.antt =====
-- Instances for the listening sockets of net/mgx_socket.cpp.
use my_gx.Base.{ℕ, zero, suc, [], ◌∷◌, Bool, true, false, some, ◌≡◌, refl}
use my_gx.Conf.{pos, get_int}
use my_gx.Listen.{NetConf, Calls, Sockets, port_of, rounds, open_listen_skts, fds}
use my_gx.Listen.Leaks.{Rounds, open_listen_skts-Rounds}

abbrev two_ports : NetConf
two_ports = record {
  m_listen_cnt = pos 2;
  m_worker_conns = pos 1024;
  m_recy_conn_wait_time = pos 80;
  m_enabled_heartbeat = pos 0;
  m_heart_wait_time = pos 30;
}

-- The second bind fails.
abbrev calls : ℕ → Calls
calls zero = record { socket = some 3; reuse_addr = true; bind = true; listen = true }
calls (suc i) = record { socket = some 4; reuse_addr = true; bind = false; listen = true }

abbrev no_sockets : Sockets
no_sockets = record { m_listen_skts = []; opened = []; closed = [] }

second_fails :
    open_listen_skts two_ports calls [] no_sockets
    ≡ some (
      false,
      record {
        m_listen_skts = (record { port = pos 100000; fd = 3 }) ∷ [];
        opened = 3 ∷ 4 ∷ [];
        closed = 4 ∷ [];
      },
    )
unfolding open_listen_skts port_of get_int
second_fails = refl

open_listen_skts-Rounds_example :
    (r : Bool × Sockets) × (open_listen_skts two_ports calls [] no_sockets ≡ some r)
    × Rounds calls (λ i. pos 100000) 0 2 no_sockets r
unfolding fds rounds port_of get_int
open_listen_skts-Rounds_example =
    open_listen_skts-Rounds two_ports calls [] no_sockets (λ i. pos 100000)
      (record { opened = refl; closed = refl }) (λ i. refl)
