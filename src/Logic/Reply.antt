-- ===== src/Logic/Reply.antt =====
-- What th_msg_process_func of bussiness/mgx_logic_socket.cpp changes and sends.
use my_gx.Base.{
  ℕ, zero, suc, ◌+◌, ◌-◌, ◌^◌, ◌<◌, List, [], ◌∷◌, ◌++◌, true, false, not, Option, none, some,
  length, length-append, length-replicate, replicate, codes, get_or, leb, ◌==◌, ◌≡◌, ◌≢◌, refl, ap,
  ◌∙◌, arith, inl, inr, Bool-cases, ==_ne, ==_self,
}
use my_gx.Conn.{MsgBuf, pkg_hdr_size}
use my_gx.Receive.{pkg_size}
use my_gx.Receive.Frames.{pkg_size-append}
use my_gx.Crc.{get_crc32}
use my_gx.Crc.Equiv.{AreBytes, get_crc32-lt}
use my_gx.Logic.{
  Server, pkg_type, pkg_crc32, pkg_hdr, has_bad_crc, pkg_handlers, call_handler,
  th_msg_process_func, Handler, ping, register, login, ping_handler, register_handler,
  login_handler, send_msg, send_msg_with_nobody, send_pkg_body,
}
use my_gx.Logic.Drop.{has_bad_crc-append}

-- A message that answers `m`: on the same use of the same connection, and a package that the other
-- side takes for right.
pub record Answers (m r : MsgBuf) : Type 0 where
  pub same_conn : r.pconn ≡ m.pconn
  pub same_seq : r.cur_seq ≡ m.cur_seq
  pub whole : length r.bytes ≡ pkg_size r.bytes
  pub good_crc : has_bad_crc r.bytes ≡ false

-- The connection `c` of `s` in `t`: nothing but its last ping may differ.
abbrev pub SameConn : ℕ → Server → Server → Type 0
SameConn c s t = t.conn c ≡ record (s.conn c) { last_ping_time = (t.conn c).last_ping_time }

-- From `s` to `t` one answer was queued, counted and announced to the sending thread, or none was.
pub data Sent (m : MsgBuf) (s t : Server) : Type 0 where
  nothing :
      t.m_send_list ≡ s.m_send_list
      → t.m_send_list_cnt ≡ s.m_send_list_cnt
      → t.send_tokens ≡ s.send_tokens
      → Sent m s t
  one :
      (r : MsgBuf)
      → Answers m r
      → t.m_send_list ≡ s.m_send_list ++ r ∷ []
      → t.m_send_list_cnt ≡ s.m_send_list_cnt + 1
      → t.send_tokens ≡ s.send_tokens + 1
      → Sent m s t

pub record Handled (m : MsgBuf) (s t : Server) : Type 0 where
  pub others : (c : ℕ) → c ≢ m.pconn → t.conn c ≡ s.conn c
  pub own : SameConn m.pconn s t
  pub sent : Sent m s t

unchanged : (m : MsgBuf) (s : Server) → Handled m s s
unchanged m s = record { others = λ c ne. refl; own = refl; sent = nothing refl refl refl }

ping-Answers :
    (m : MsgBuf)
    → Answers m (record { pconn = m.pconn; cur_seq = m.cur_seq; bytes = pkg_hdr pkg_hdr_size 0 0 })
unfolding pkg_hdr pkg_size has_bad_crc
ping-Answers m = record { same_conn = refl; same_seq = refl; whole = refl; good_crc = refl }

ping-Handled : (now : ℕ) (m : MsgBuf) (n : ℕ) (s : Server) → Handled m s (ping_handler now m n s).1
unfolding ping_handler send_msg_with_nobody send_msg
ping-Handled now m n s = elim (Bool-cases (n == 0)) [
  | inl no_body ↦ rw no_body (record {
    others = λ c ne. rw (==_ne c m.pconn ne) refl;
    own = ground arith;
    sent = one _ (ping-Answers m) refl refl refl;
  })
  | inr some_body ↦ rw some_body (unchanged m s)
]

AreBytes-append : (xs ys : List ℕ) → AreBytes xs → AreBytes ys → AreBytes (xs ++ ys)
AreBytes-append [] ys hx hy = hy
AreBytes-append (x ∷ xs) ys (h, hx) hy = (h, AreBytes-append xs ys hx hy)

AreBytes-replicate : (n b : ℕ) → b < 256 → AreBytes (replicate n b)
AreBytes-replicate zero b h = tt
AreBytes-replicate (suc n) b h = (h, AreBytes-replicate n b h)

greeting-AreBytes : AreBytes (codes "register succeed")
greeting-AreBytes = ground arith

send_pkg_body-AreBytes : AreBytes send_pkg_body
unfolding send_pkg_body
send_pkg_body-AreBytes =
    AreBytes-append (codes "register succeed") (replicate 64984 0) greeting-AreBytes
      (AreBytes-replicate 64984 0 (omega arith))

length-send_pkg_body : length send_pkg_body ≡ 65000
unfolding send_pkg_body
length-send_pkg_body =
    length-append (codes "register succeed") (replicate 64984 0)
    ∙ ap (λ n. 16 + n) (length-replicate {A = ℕ} 64984 0)

-- A header in memory reads as it was written.
pkg_crc32-hdr : (size type crc : ℕ) → crc < 2 ^ 32 → pkg_crc32 (pkg_hdr size type crc) ≡ crc
unfolding pkg_crc32 pkg_hdr
pkg_crc32-hdr size type crc h = omega arith

pub pkg_size-hdr : (size type crc : ℕ) → size < 65536 → pkg_size (pkg_hdr size type crc) ≡ size
unfolding pkg_size pkg_hdr
pkg_size-hdr size type crc h = omega arith

pub length-pkg_hdr : (size type crc : ℕ) → length (pkg_hdr size type crc) ≡ pkg_hdr_size
unfolding pkg_hdr
length-pkg_hdr size type crc = refl

-- A header with the size and the checksum of the body, before that body, is a right package.
pub package_with_body :
    (n type : ℕ) (b : List ℕ)
    → length b ≡ n
    → 0 < n
    → pkg_hdr_size + n < 65536
    → AreBytes b
    → let p = pkg_hdr (pkg_hdr_size + n) type (get_crc32 b) ++ b in
      (length p ≡ pkg_size p) × (has_bad_crc p ≡ false)
package_with_body n type b len pos fits bytes =
    let h = pkg_hdr (pkg_hdr_size + n) type (get_crc32 b) in
    let eight : length h ≡ pkg_hdr_size = length-pkg_hdr (pkg_hdr_size + n) type (get_crc32 b) in
    let size = pkg_size-hdr (pkg_hdr_size + n) type (get_crc32 b) fits in
    let crc = pkg_crc32-hdr (pkg_hdr_size + n) type (get_crc32 b) (get_crc32-lt b bytes) in
    let equal : not (get_crc32 b == pkg_crc32 h) ≡ false = ground (arith, crc) in
    (
      omega (arith, length-append h b, eight, len, pkg_size-append h b (omega arith), size),
      has_bad_crc-append h b eight (omega (arith, size, len)) (omega arith) ∙ equal,
    )

register-Handled : (m : MsgBuf) (s : Server) → Handled m s (register_handler m s).1
unfolding register_handler send_msg
register-Handled m s =
    let (whole, good_crc) =
      package_with_body 65000 1 send_pkg_body length-send_pkg_body (omega arith) (omega arith)
        send_pkg_body-AreBytes in
    record {
      others = λ c ne. refl;
      own = refl;
      sent =
          one _ (record { same_conn = refl; same_seq = refl; whole = whole; good_crc = good_crc })
            refl refl refl;
    }

call_handler-Handled :
    (h : Option Handler) (now : ℕ) (m : MsgBuf) (n : ℕ) (s : Server)
    → Handled m s (call_handler h now m n s)
unfolding call_handler login_handler
call_handler-Handled none now m n s = unchanged m s
call_handler-Handled (some ping) now m n s = ping-Handled now m n s
call_handler-Handled (some register) now m n s = register-Handled m s
call_handler-Handled (some login) now m n s = unchanged m s

-- Whatever the message, no other connection changes, of its own at most the time of the last ping,
-- and at most one message is queued for sending: on the same use of the connection, and a right
-- package with its size and checksum.
pub th_msg_process_func-Handled :
    (now : ℕ) (m : MsgBuf) (s : Server) → Handled m s (th_msg_process_func now m s)
unfolding th_msg_process_func
th_msg_process_func-Handled now m s = elim (Bool-cases (has_bad_crc m.bytes)) [
  | inl bad ↦ rw bad (unchanged m s)
  | inr good ↦ elim (Bool-cases ((s.conn m.pconn).m_cur_seq == m.cur_seq)) [
    | inr old ↦ rw (good, old) (unchanged m s)
    | inl present ↦ elim (Bool-cases (leb (length pkg_handlers) (pkg_type m.bytes))) [
      | inl beyond ↦ rw (good, present, beyond) (unchanged m s)
      | inr within ↦
          rw (good, present, within)
            (call_handler-Handled (get_or pkg_handlers (pkg_type m.bytes) none) now m
              (pkg_size m.bytes - pkg_hdr_size) s)
    ]
  ]
]

-- A ping package of the present use of a connection is answered by one like it, and the connection's
-- last ping becomes the present time.
pub ping_answered :
    (now c : ℕ) (s : Server)
    → let m : MsgBuf = record {
      pconn = c;
      cur_seq = (s.conn c).m_cur_seq;
      bytes = pkg_hdr pkg_hdr_size 0 0;
    } in
      let t = th_msg_process_func now m s in
      ((t.conn c).last_ping_time ≡ now) × (t.m_send_list ≡ s.m_send_list ++ m ∷ [])
unfolding th_msg_process_func has_bad_crc pkg_size pkg_crc32 pkg_type pkg_handlers call_handler
    ping_handler send_msg_with_nobody send_msg pkg_hdr
ping_answered now c s =
    let present : ((s.conn c).m_cur_seq == (s.conn c).m_cur_seq) ≡ true =
      ==_self (s.conn c).m_cur_seq in
    rw (present, ==_self c) (refl, refl)
