-- ===== src/Receive/State.antt =====
-- The states of the receiving machine of net/mgx_socket_request.cpp between two read events, and
-- what a step of it is to do.
use my_gx.Base.{
  ℕ, ◌+◌, ◌≤◌, ◌<◌, false, List, [], ◌∷◌, Option, none, some, length, take, drop, ◌==◌,
  if◌then◌else◌, ◌≡◌, refl, sym, ap, ◌∙◌, arith, length-take, take-append-drop,
}
use my_gx.Conn.{
  Conn, MsgBuf, in_hdr, in_msg, hdr_start, hdr_receiving, body_start, body_receiving, pkg_hdr_size,
  pkg_hdr_buf_size,
}
use my_gx.Receive.{pkg_size, restart}
use my_gx.Receive.Frames.{is_bad, pkg_size-append}

-- Between two read events a connection is in the midst of a header or of a body.
pub record InHdr (c : Conn) (k : ℕ) : Type 0 where
  pub stat : c.recv_stat ≡ (if k == 0 then hdr_start else hdr_receiving)
  pub ptr : c.precv_buf ≡ in_hdr k
  pub rest : k + c.rest_recv_size ≡ pkg_hdr_size
  pub some_rest : 0 < c.rest_recv_size
  pub size : length c.hdr_buf ≡ pkg_hdr_buf_size

pub record InBody (addr : ℕ) (c : Conn) (k : ℕ) (m : MsgBuf) : Type 0 where
  pub stat : c.recv_stat ≡ (if k == pkg_hdr_size then body_start else body_receiving)
  pub ptr : c.precv_buf ≡ in_msg k
  pub mem : c.precv_mem_addr ≡ some m
  pub from : pkg_hdr_size ≤ k
  pub rest : k + c.rest_recv_size ≡ pkg_size m.bytes
  pub some_rest : 0 < c.rest_recv_size
  pub size : length m.bytes ≡ pkg_size m.bytes
  pub good : is_bad (pkg_size m.bytes) ≡ false
  pub stamped : (m.pconn ≡ addr) × (m.cur_seq ≡ c.m_cur_seq)
  pub hdr_size : length c.hdr_buf ≡ pkg_hdr_buf_size

pub data Receiving (addr : ℕ) (c : Conn) : Type 0 where
  hdr : (k : ℕ) → InHdr c k → Receiving addr c
  body : (k : ℕ) (m : MsgBuf) → InBody addr c k m → Receiving addr c

-- The bytes of the package under way.
abbrev pub held : {addr : ℕ} {c : Conn} → Receiving addr c → List ℕ
held {c = c} (hdr k s) = take k c.hdr_buf
held (body k m s) = take k m.bytes

-- The bytes of the message that a step handed on, if it did.
abbrev pub handed : Option MsgBuf → List (List ℕ)
handed none = []
handed (some m) = m.bytes ∷ []

abbrev pub IsStamped : ℕ → ℕ → Option MsgBuf → Type 0
IsStamped addr seq none = Unit {0}
IsStamped addr seq (some m) = (m.pconn ≡ addr) × (m.cur_seq ≡ seq)

-- What a step of the machine on the connection at `addr` is to do, when the package under way and
-- the new bytes are read as `read` says.
pub record Steps (addr seq : ℕ) (read : List (List ℕ) × List ℕ) (r : Conn × Option MsgBuf)
    : Type 0 where
  pub next : Receiving addr r.0
  pub reads : read ≡ (handed r.1, held next)
  pub stamped : IsStamped addr seq r.1
  pub same_seq : r.0.m_cur_seq ≡ seq

pub pkg_size-take :
    (n : ℕ) (buf : List ℕ) → 2 ≤ n → n ≤ length buf → pkg_size (take n buf) ≡ pkg_size buf
pkg_size-take n buf two h =
    sym (pkg_size-append (take n buf) (drop n buf) (omega (arith, length-take n buf)))
    ∙ ap pkg_size (take-append-drop n buf)

pub restart-InHdr : (c : Conn) → length c.hdr_buf ≡ pkg_hdr_buf_size → InHdr (restart c) 0
unfolding restart
restart-InHdr c h = record {
  stat = refl;
  ptr = refl;
  rest = refl;
  some_rest = omega arith;
  size = h;
}

-- recv never asks for more than there is room for.
pub record Fits (chunk : List ℕ) (c : Conn) : Type 0 where
  pub nonempty : 0 < length chunk
  pub asked : length chunk ≤ c.rest_recv_size
