-- ===== src/Logic/Drop.antt =====
-- The tests of th_msg_process_func in bussiness/mgx_logic_socket.cpp, and the messages they stop.
use my_gx.Base.{
  ℕ, zero, suc, ◌+◌, ◌-◌, ◌≤◌, ◌<◌, List, ◌∷◌, ◌++◌, true, false, not, none, take, drop, length,
  length-append, get_or, leb, ◌==◌, ◌≡◌, ◌≢◌, refl, sym, ap, ◌∙◌, arith, inl, inr, Bool-cases,
  ==_ne, drop-append_of_le, take-length, drop_of_le, get_or-append,
}
use my_gx.Conn.{MsgBuf, pkg_hdr_size}
use my_gx.Receive.{pkg_size}
use my_gx.Receive.Frames.{pkg_size-append}
use my_gx.Crc.{get_crc32}
use my_gx.Crc.Equiv.{AreBytes}
use my_gx.Crc.Detect.{get_crc32_detects}
use my_gx.Logic.{
  Server, pkg_type, pkg_crc32, pkg_body, has_bad_crc, pkg_handlers, call_handler,
  th_msg_process_func,
}

no_handler :
    (type : ℕ) → 3 ≤ type → type < length pkg_handlers → get_or pkg_handlers type none ≡ none
unfolding pkg_handlers
no_handler zero h k = absurd (omega arith)
no_handler (suc zero) h k = absurd (omega arith)
no_handler (suc (suc zero)) h k = absurd (omega arith)
no_handler (suc (suc (suc zero))) h k = refl
no_handler (suc (suc (suc (suc n)))) h k = absurd (omega arith)

-- Why a message is dropped.
pub data Dropped (m : MsgBuf) (s : Server) : Type 0 where
  bad_crc : has_bad_crc m.bytes ≡ true → Dropped m s
  stale : (s.conn m.pconn).m_cur_seq ≢ m.cur_seq → Dropped m s
  unknown : 3 ≤ pkg_type m.bytes → Dropped m s

-- A message with a wrong checksum, of an earlier use of its connection, or of a type without a
-- handler changes nothing: no connection, and nothing is sent.
pub Dropped-unchanged :
    (now : ℕ) (m : MsgBuf) (s : Server) → Dropped m s → th_msg_process_func now m s ≡ s
unfolding th_msg_process_func call_handler
Dropped-unchanged now m s (bad_crc e) = rw e
Dropped-unchanged now m s (stale ne) = elim (Bool-cases (has_bad_crc m.bytes)) [
  | inl bad ↦ rw bad
  | inr good ↦ rw (good, ==_ne _ _ ne)
]
Dropped-unchanged now m s (unknown h) = elim (Bool-cases (has_bad_crc m.bytes)) [
  | inl bad ↦ rw bad
  | inr good ↦ elim (Bool-cases ((s.conn m.pconn).m_cur_seq == m.cur_seq)) [
    | inr old ↦ rw (good, old)
    | inl present ↦ elim (Bool-cases (leb (length pkg_handlers) (pkg_type m.bytes))) [
      | inl beyond ↦ rw (good, present, beyond)
      | inr within ↦ rw (good, present, within, no_handler (pkg_type m.bytes) h (ground arith))
    ]
  ]
]

-- The four bytes of the checksum field are in the header.
pkg_crc32-append : (h b : List ℕ) → length h ≡ pkg_hdr_size → pkg_crc32 (h ++ b) ≡ pkg_crc32 h
unfolding pkg_crc32
pkg_crc32-append h b e = ground (
  arith,
  get_or-append 4 0 h b,
  get_or-append 5 0 h b,
  get_or-append 6 0 h b,
  get_or-append 7 0 h b,
)

pkg_body-append :
    (h b : List ℕ)
    → length h ≡ pkg_hdr_size
    → pkg_size h ≡ pkg_hdr_size + length b
    → pkg_body (h ++ b) ≡ b
unfolding pkg_body
pkg_body-append h b e size =
    let same_size : pkg_size (h ++ b) ≡ pkg_hdr_size + length b =
      pkg_size-append h b (omega arith) ∙ size in
    let drops : drop pkg_hdr_size (h ++ b) ≡ b =
      drop-append_of_le pkg_hdr_size h b (omega arith)
      ∙ ap (λ l. l ++ b) (drop_of_le pkg_hdr_size h (omega arith)) in
    let same_length : pkg_hdr_size + length b - pkg_hdr_size ≡ length b = omega arith in
    rw (same_size, drops) (ap (λ n. take n b) same_length ∙ take-length b)

pub has_bad_crc-append :
    (h b : List ℕ)
    → length h ≡ pkg_hdr_size
    → pkg_size h ≡ pkg_hdr_size + length b
    → 0 < length b
    → has_bad_crc (h ++ b) ≡ not (get_crc32 b == pkg_crc32 h)
unfolding has_bad_crc
has_bad_crc-append h b e size some_body =
    let same_size : pkg_size (h ++ b) ≡ pkg_hdr_size + length b =
      pkg_size-append h b (omega arith) ∙ size in
    let has_body : (pkg_size (h ++ b) == pkg_hdr_size) ≡ false = ground (arith, same_size) in
    rw (has_body, pkg_body-append h b e size, pkg_crc32-append h b e)

changed : (u v crc : ℕ) → not (u == crc) ≡ false → u ≢ v → not (v == crc) ≡ true
changed u v crc right ne = ground arith

-- A package that is right becomes wrong when one byte of its body is changed on the way, and then
-- the message with it changes nothing.
pub corrupted-unchanged :
    (now b c : ℕ) (header xs ys : List ℕ) (m : MsgBuf) (s : Server)
    → length header ≡ pkg_hdr_size
    → pkg_size header ≡ pkg_hdr_size + length (xs ++ b ∷ ys)
    → AreBytes xs
    → AreBytes ys
    → b < 256
    → c < 256
    → b ≢ c
    → has_bad_crc (header ++ (xs ++ b ∷ ys)) ≡ false
    → m.bytes ≡ header ++ (xs ++ c ∷ ys)
    → th_msg_process_func now m s ≡ s
corrupted-unchanged now b c header xs ys m s e size hx hy hb hc ne good at =
    let size' : pkg_size header ≡ pkg_hdr_size + length (xs ++ c ∷ ys) =
      omega (arith, size, length-append xs (b ∷ ys), length-append xs (c ∷ ys)) in
    let right =
      sym
        (has_bad_crc-append header (xs ++ b ∷ ys) e size (omega (arith, length-append xs (b ∷ ys))))
      ∙ good in
    let other = get_crc32_detects xs ys b c hx hy hb hc ne in
    let wrong : not (get_crc32 (xs ++ c ∷ ys) == pkg_crc32 header) ≡ true =
      changed (get_crc32 (xs ++ b ∷ ys)) (get_crc32 (xs ++ c ∷ ys)) (pkg_crc32 header) right
        other in
    Dropped-unchanged now m s (
      bad_crc (
        rw at (
          has_bad_crc-append header (xs ++ c ∷ ys) e size'
            (omega (arith, length-append xs (c ∷ ys)))
          ∙ wrong)))
