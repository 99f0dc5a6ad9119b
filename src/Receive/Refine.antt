-- ===== src/Receive/Refine.antt =====
-- The receiving handlers of net/mgx_socket_request.cpp, fed by recv calls of any size, and the packages
-- of the byte stream.
use my_gx.Base.{
  ℕ, List, [], ◌∷◌, ◌++◌, Option, none, some, length, map, ◌≡◌, refl, sym, ap, subst, ◌∙◌, arith,
}
use my_gx.Conn.{Conn, MsgBuf, get_one_to_use, next_seq, pkg_hdr_buf_size}
use my_gx.Receive.{read_chunk, read_chunks, with_first}
use my_gx.Receive.Frames.{
  frames, frames-append, frames-nil, frames-concat, continue, concat, AllPackages,
}
use my_gx.Receive.State.{InHdr, Receiving, hdr, body, held, handed, IsStamped, Steps, Fits}
use my_gx.Receive.HdrStep.{hdr-Steps}
use my_gx.Receive.BodyStep.{body-Steps}

abbrev pub bytes_of : List MsgBuf → List (List ℕ)
bytes_of = map (λ m. m.bytes)

abbrev pub AllStamped : ℕ → ℕ → List MsgBuf → Type 0
AllStamped addr seq [] = Unit {0}
AllStamped addr seq (m ∷ ms) = ((m.pconn ≡ addr) × (m.cur_seq ≡ seq)) × AllStamped addr seq ms

-- One recv call in any receiving state moves the connection to a receiving state, and hands on what
-- the byte-wise reading completes.
pub step-Steps :
    (garbage addr : ℕ) (chunk : List ℕ) (c : Conn) (r : Receiving addr c)
    → Fits chunk c
    → Steps addr c.m_cur_seq (frames (held r) chunk) (read_chunk garbage addr chunk c)
step-Steps garbage addr chunk c (hdr k s) f = hdr-Steps garbage addr chunk c k s f
step-Steps garbage addr chunk c (body k m s) f = body-Steps garbage addr chunk c k m s f

-- Each of the chunks keeps to what recv was asked for.
abbrev pub AllFit : ℕ → ℕ → List (List ℕ) → Conn → Type 0
AllFit garbage addr [] c = Unit {0}
AllFit garbage addr (chunk ∷ rest) c =
    Fits chunk c × AllFit garbage addr rest (read_chunk garbage addr chunk c).0

pub record Reads (addr seq : ℕ) (read : List (List ℕ) × List ℕ) (r : Conn × List MsgBuf)
    : Type 0 where
  pub next : Receiving addr r.0
  pub reads : read ≡ (bytes_of r.1, held next)
  pub stamped : AllStamped addr seq r.1
  pub same_seq : r.0.m_cur_seq ≡ seq

handed_first :
    (out : Option MsgBuf) (outs : List MsgBuf)
    → bytes_of (with_first out outs) ≡ handed out ++ bytes_of outs
handed_first none outs = refl
handed_first (some m) outs = refl

stamped_first :
    (addr seq : ℕ) (out : Option MsgBuf) (outs : List MsgBuf)
    → IsStamped addr seq out
    → AllStamped addr seq outs
    → AllStamped addr seq (with_first out outs)
stamped_first addr seq none outs h hs = hs
stamped_first addr seq (some m) outs h hs = (h, hs)

pub read_chunks-Reads :
    (garbage addr : ℕ) (chunks : List (List ℕ)) (c : Conn) (r : Receiving addr c)
    → AllFit garbage addr chunks c
    → Reads addr c.m_cur_seq (frames (held r) (concat chunks)) (read_chunks garbage addr chunks c)
unfolding read_chunks
read_chunks-Reads garbage addr [] c r f = record {
  next = r;
  reads = frames-nil (held r);
  stamped = tt;
  same_seq = refl;
}
read_chunks-Reads garbage addr (chunk ∷ rest) c r (f, fs) =
    let one = step-Steps garbage addr chunk c r f in
    let (c', out) = read_chunk garbage addr chunk c in
    let (_, outs) = read_chunks garbage addr rest c' in
    let more = read_chunks-Reads garbage addr rest c' one.next fs in
    record {
      next = more.next;
      reads =
          frames-append (held r) chunk (concat rest)
          ∙ ap (λ q. continue q (concat rest)) one.reads
          ∙ ap (λ q. (handed out ++ q.0, q.1)) more.reads
          ∙ ap (λ l. (l, held more.next)) (sym (handed_first out outs));
      stamped =
          stamped_first addr c.m_cur_seq out outs one.stamped
            (subst (λ q. AllStamped addr q outs) one.same_seq more.stamped);
      same_seq = more.same_seq ∙ one.same_seq;
    }

-- A connection taken from the pool is at the start of a header.
pub fresh-InHdr :
    (now : ℕ) (c : Conn) → length c.hdr_buf ≡ pkg_hdr_buf_size → InHdr (get_one_to_use now c) 0
unfolding get_one_to_use
fresh-InHdr now c h = record {
  stat = refl;
  ptr = refl;
  rest = refl;
  some_rest = omega arith;
  size = h;
}

-- Packages that a client sends back to back reach the thread pool whole, once each and in order,
-- stamped with the connection and its sequence number, however recv cuts the stream into chunks.
pub packages_arrive :
    (garbage addr now : ℕ) (c : Conn) (ps chunks : List (List ℕ))
    → length c.hdr_buf ≡ pkg_hdr_buf_size
    → AllPackages ps
    → concat chunks ≡ concat ps
    → AllFit garbage addr chunks (get_one_to_use now c)
    → let (c', out) = read_chunks garbage addr chunks (get_one_to_use now c) in
      (bytes_of out ≡ ps) × AllStamped addr (next_seq c.m_cur_seq) out × Receiving addr c'
unfolding get_one_to_use
packages_arrive garbage addr now c ps chunks size ok same fit =
    let opened = get_one_to_use now c in
    let run = read_chunks-Reads garbage addr chunks opened (hdr 0 (fresh-InHdr now c size)) fit in
    let read = sym run.reads ∙ ap (frames []) same ∙ frames-concat ps ok in
    (ap (λ q. q.0) read, run.stamped, run.next)
