-- ===== src/Logic/Examples.antt =====
-- Tests and instances for the dispatch of bussiness/mgx_logic_socket.cpp.
use my_gx.Base.{ℕ, ◌+◌, List, [], ◌∷◌, ◌++◌, ◌≡◌, refl, arith}
use my_gx.Conn.{MsgBuf, pkg_hdr_size}
use my_gx.Crc.{get_crc32}
use my_gx.Pool.{blank}
use my_gx.Logic.{Server, pkg_hdr, th_msg_process_func}
use my_gx.Logic.Drop.{stale, Dropped-unchanged, corrupted-unchanged}
use my_gx.Logic.Reply.{
  Handled, length-pkg_hdr, pkg_size-hdr, package_with_body, th_msg_process_func-Handled,
  ping_answered,
}

abbrev server : Server
server = record {
  conn = λ c. record blank { m_cur_seq = 6; last_ping_time = 3 };
  m_send_list = [];
  m_send_list_cnt = 0;
  send_tokens = 0;
}

-- A package of type 2 with the body "mgx" and its checksum.
abbrev login_header : List ℕ
login_header = pkg_hdr (pkg_hdr_size + 3) 2 (get_crc32 (109 ∷ 103 ∷ 120 ∷ []))

abbrev with_body : List ℕ → MsgBuf
with_body body = record { pconn = 4; cur_seq = 6; bytes = login_header ++ body }

abbrev old_ping : MsgBuf
old_ping = record { pconn = 4; cur_seq = 5; bytes = pkg_hdr pkg_hdr_size 0 0 }

Dropped-unchanged_example : th_msg_process_func 9 old_ping server ≡ server
Dropped-unchanged_example = Dropped-unchanged 9 old_ping server (stale (omega arith))

corrupted-unchanged_example :
    th_msg_process_func 9 (with_body (109 ∷ 71 ∷ 120 ∷ [])) server ≡ server
corrupted-unchanged_example =
    corrupted-unchanged 9 103 71 login_header (109 ∷ []) (120 ∷ [])
      (with_body (109 ∷ 71 ∷ 120 ∷ [])) server (length-pkg_hdr _ _ _)
      (pkg_size-hdr _ _ _ (omega arith)) (omega arith, tt) (omega arith, tt) (omega arith)
      (omega arith) (omega arith)
      (package_with_body 3 2 (109 ∷ 103 ∷ 120 ∷ []) refl (omega arith) (omega arith)
        (omega arith, (omega arith, (omega arith, tt)))).1
      refl

th_msg_process_func-Handled_example :
    Handled old_ping server (th_msg_process_func 9 old_ping server)
th_msg_process_func-Handled_example = th_msg_process_func-Handled 9 old_ping server

ping_answered_example :
    (((th_msg_process_func 9 (record old_ping { cur_seq = 6 }) server).conn 4).last_ping_time ≡ 9)
    × ((th_msg_process_func 9 (record old_ping { cur_seq = 6 }) server).m_send_list
        ≡ record old_ping { cur_seq = 6 } ∷ [])
ping_answered_example = ping_answered 9 4 server
