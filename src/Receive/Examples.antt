-- ===== src/Receive/Examples.antt =====
-- Tests and instances for the receiving handlers of net/mgx_socket_request.cpp.
use my_gx.Base.{ℕ, List, [], ◌∷◌, false, none, replicate, ◌≡◌, refl, arith}
use my_gx.Conn.{Conn, RecvStat, RecvPtr, get_one_to_use, pkg_hdr_buf_size, next_seq}
use my_gx.Receive.{
  read_chunk, read_chunks, process_v1, process_v2, restart, received, store_chunk, await, pkg_size,
}
use my_gx.Receive.Frames.{AllPackages, concat, frames}
use my_gx.Receive.State.{Receiving, hdr, held}
use my_gx.Receive.Refine.{
  AllFit, AllStamped, bytes_of, packages_arrive, read_chunks-Reads, Reads, fresh-InHdr,
}

abbrev closed_conn : Conn
closed_conn = record {
  fd = none;
  instance_bit = false;
  m_cur_seq = 41;
  events = 0;
  recv_stat = RecvStat.body_receiving;
  hdr_buf = replicate pkg_hdr_buf_size 0;
  precv_buf = RecvPtr.in_msg 9;
  rest_recv_size = 3;
  precv_mem_addr = none;
  psend_buf = 0;
  rest_send_size = 0;
  psend_mem_addr = none;
  throw_send_cnt = 0;
  in_recy_time = 0;
  last_ping_time = 0;
}

-- Two packages of eight and of ten bytes, and a way recv may cut them.
abbrev sent : List (List ℕ)
sent = (10 ∷ 0 ∷ 1 ∷ 0 ∷ 0 ∷ 0 ∷ 0 ∷ 0 ∷ 65 ∷ 66 ∷ []) ∷ (8 ∷ 0 ∷ 0 ∷ 0 ∷ 0 ∷ 0 ∷ 0 ∷ 0 ∷ []) ∷ []

abbrev cut : List (List ℕ)
cut =
    (10 ∷ 0 ∷ 1 ∷ [])
    ∷ (0 ∷ 0 ∷ 0 ∷ 0 ∷ 0 ∷ [])
    ∷ (65 ∷ [])
    ∷ (66 ∷ [])
    ∷ (8 ∷ 0 ∷ 0 ∷ 0 ∷ 0 ∷ 0 ∷ 0 ∷ 0 ∷ [])
    ∷ []

abbrev opened : Conn
opened = get_one_to_use 7 closed_conn

sent-AllPackages : AllPackages sent
unfolding pkg_size
sent-AllPackages =
    (record { good = refl; whole = refl }, (record { good = refl; whole = refl }, tt))

cut-AllFit : AllFit 170 3 cut opened
unfolding read_chunk received store_chunk await process_v1 process_v2 restart pkg_size
    get_one_to_use
cut-AllFit = (
  record { nonempty = omega arith; asked = omega arith },
  (
    record { nonempty = omega arith; asked = omega arith },
    (
      record { nonempty = omega arith; asked = omega arith },
      (
        record { nonempty = omega arith; asked = omega arith },
        (record { nonempty = omega arith; asked = omega arith }, tt),
      ),
    ),
  ),
)

opened-Receiving : Receiving 3 opened
opened-Receiving = hdr 0 (fresh-InHdr 7 closed_conn refl)

packages_arrive_example :
    (bytes_of (read_chunks 170 3 cut opened).1 ≡ sent)
    × AllStamped 3 (next_seq 41) (read_chunks 170 3 cut opened).1
    × Receiving 3 (read_chunks 170 3 cut opened).0
packages_arrive_example =
    packages_arrive 170 3 7 closed_conn sent cut refl sent-AllPackages refl cut-AllFit

read_chunks-Reads_example :
    Reads 3 opened.m_cur_seq
      (frames (held opened-Receiving) (concat cut))
      (read_chunks 170 3 cut opened)
read_chunks-Reads_example = read_chunks-Reads 170 3 cut opened opened-Receiving cut-AllFit
