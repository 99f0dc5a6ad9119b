-- ===== src/Lib.antt =====
-- Verification of the Mgx network framework: the parts of the server that take packages from TCP
-- connections, and the pool and timers that manage the connections.
--
-- How the parts interact. The event loop takes a connection from the pool (get_conn) and calls its
-- read handler whenever bytes have come. The handler cuts the bytes into packages and gives each one
-- to the thread pool, in a message that carries the connection and its sequence number. Since a
-- connection is used again after it was given back, at once (close_conn) or after a time
-- (insert_recy_conn_queue and the recovery thread), the sequence number tells an old message or timer
-- from a present one. A thread of the pool checks the message and runs its handler, whose reply is
-- queued for the sending thread, which sends what it can at once and leaves the rest to the write
-- handler that the event loop calls. A timer per connection looks for missing heartbeats.
-- The HTTP server has its own read handler, which reads a whole request, and its own handler of
-- messages, which answers it through the same queue. The coroutines are apart from all this.
--
-- Which file is about which code:
--   Base        shared names, Boolean tests, lists over the native numbers, laws of bit operations
--   Conn        include/mgx_socket.h (struct _mgx_conn, mgx_msg_hdr_t), include/mgx_comm.h, and
--               get_one_to_use and put_one_to_free of net/mgx_socket_conn.cpp
--   Receive     the read handlers of net/mgx_socket_request.cpp: read_chunk is
--               _read_request_handler with the bytes that recv returned, process_v1 and process_v2
--               are read_request_handler_process_v1 and _v2; Receive/Frames is the byte-wise
--               reading that they are compared with
--   Monitor     monitor_timer_th_func of net/mgx_socket_time.cpp: monitor_round is one round of its
--               loop
--   Handler     read_request_handler and recv_process of net/mgx_socket_request.cpp, on the pool;
--               Handler/System puts the events of the server into any order
--   Timer       net/mgx_socket_time.cpp: the functions keep their names
--   Pool        net/mgx_socket_conn.cpp: the functions keep their names; recy_round and recy_loop
--               are the inner loop of recy_conn_th_func; Pool/Step makes the calls the steps of a
--               transition system
--   ThreadPool  misc/mgx_thread_pool.cpp: the queue, the semaphore and the threads of th_func;
--               ThreadPool/Step has their interleavings, with signals that interrupt sem_wait
--   Logic       bussiness/mgx_logic_socket.cpp: the functions keep their names, the table
--               pkg_handlers is a list; send_msg of net/mgx_socket.cpp
--   Printf      app/mgx_printf.cpp: mgx_sprintf_num in Printf, and mgx_vslprintf in Printf/Format,
--               whose loop does one `round` at a time
--   Epoll       epoll_oper_event and epoll_process_events of net/mgx_socket.cpp: the functions keep
--               their names, process_event is one round of the loop, on a state with handlers
--   Send        send_msg, send_uninterrupt and send_msg_th_func of net/mgx_socket.cpp, and
--               send_msg_handler of net/mgx_socket_request.cpp: at_message is one round of the inner
--               loop, send_pass its rounds; Send/Steps has the interleavings
--   Conf        app/mgx_conf.cpp and strim of include/mgx_string.h: the functions keep their names,
--               load_line is one round of the loop of load
--   Accept      net/mgx_socket_accept.cpp, and the loop of epoll_init in net/mgx_socket.cpp
--   Listen      read_conf, open_listen_skts and close_listen_skts of net/mgx_socket.cpp
--   Coroutine   misc/mgx_coroutine.cpp and misc/mgx_coroutine_scheduler.cpp: the functions keep their
--               names; resume runs a coroutine up to its next switch, and wake_first, run_front and
--               run_events are the three parts of schedule
--   Http        http/mgx_http_socket.cpp: read_line_from and read_head_from are the loops of
--               http_read_request_line and http_read_request_head, put_header is one round of
--               http_parse_request_head, http_request_handler is _read_request_handler, and
--               th_http_process_func th_msg_process_func: answer_to makes the response. What
--               a peek for the end of the head meets, and the byte behind buf, are arguments
--   Crc         misc/mgx_crc32.cpp: the table is filled by fill_table, the loop is update_crc;
--               Crc/Equiv has the bit-serial checksum
--
-- State. A connection is a record with the fields of the struct, a pointer to a connection an
-- address, and the pool holds the store of connections. Each member function is a function from the
-- state before to the state after; what the system returns (the bytes of recv, the time, the next
-- address of new) is an argument. Numbers are natural numbers; the sequence number wraps at 2 ^ 64,
-- and a checksum is kept below 2 ^ 32 by its operations. The host is little-endian, as the code
-- assumes, and time_t is not negative.
--
-- Fuel. over_time_timers, recy_loop and mgx_vslprintf are loops on fuel (monitor_round hands it on), and
-- digits_loop on the bytes of its buffer; the theorems about them say how much is enough. All other
-- loops are structural.
--
-- Not modelled: threads inside a call under a mutex (it is one step), logging, conn_pool_destroy, the
-- coroutine sockets, process control, and the databases.
pub mod Base
pub mod Conn
pub mod Crc
pub mod Receive
pub mod Timer
pub mod Pool
pub mod Monitor
pub mod Handler
pub mod ThreadPool
pub mod Logic
pub mod Printf
pub mod Accept
pub mod Conf
pub mod Coroutine
pub mod Epoll
pub mod Http
pub mod Listen
pub mod Send
