-- ===== src/Receive/HdrStep.antt =====
-- A read event of net/mgx_socket_request.cpp within a package header.
use my_gx.Base.{
  ℕ, ◌+◌, ◌<◌, true, false, List, [], ◌++◌, Option, length, take, ◌==◌, if◌then◌else◌, ◌≡◌, refl,
  sym, ap, ◌∙◌, arith, length-append, length-take, write_at, length-write_at, take-write_at, inl,
  inr, Bool-cases,
}
use my_gx.Conn.{
  Conn, MsgBuf, RecvStat, in_hdr, hdr_start, hdr_receiving, pkg_hdr_size, pkg_hdr_buf_size,
}
use my_gx.Receive.{store_chunk, process_v1, await, received, read_chunk}
use my_gx.Receive.Frames.{settle, frames, at_once, frames-at_once, settle_short}
use my_gx.Receive.State.{InHdr, hdr, Steps, Fits}
use my_gx.Receive.Header.{process_v1-Steps}

module _ (garbage addr : ℕ) (chunk : List ℕ) (c : Conn) (k : ℕ) where
  -- The connection once recv has stored the chunk in the header.
  stored_hdr : Conn
  stored_hdr = record c { hdr_buf = write_at c.hdr_buf k chunk }

  store_hdr : c.precv_buf ≡ in_hdr k → store_chunk chunk c ≡ stored_hdr
  unfolding store_chunk stored_hdr
  store_hdr e = rw e

  ReadHdr : Conn → Conn × Option MsgBuf
  ReadHdr d =
      if length chunk == d.rest_recv_size
      then process_v1 garbage addr d
      else await (length chunk) hdr_receiving d

  received_start :
      (d : Conn)
      → d.rest_recv_size ≡ pkg_hdr_size
      → received garbage addr (length chunk) hdr_start d ≡ ReadHdr d
  unfolding received ReadHdr
  received_start d e = rw e

  received_as :
      (st : RecvStat) (d : Conn)
      → c.recv_stat ≡ st
      → received garbage addr (length chunk) c.recv_stat d
        ≡ received garbage addr (length chunk) st d
  received_as st d e = ap (λ t. received garbage addr (length chunk) t d) e

  read_hdr : InHdr c k → read_chunk garbage addr chunk c ≡ ReadHdr stored_hdr
  unfolding read_chunk
  read_hdr s =
      ap (received garbage addr (length chunk) c.recv_stat) (store_hdr s.ptr)
      ∙ elim (Bool-cases (k == 0)) [
        | inl start ↦
            received_as hdr_start stored_hdr (ground arith)
            ∙ received_start stored_hdr (unfold stored_hdr in ground arith)
        | inr later ↦
            received_as hdr_receiving stored_hdr (ground arith) ∙ (unfold received ReadHdr in refl)
      ]

  read_hdr_whole :
      InHdr c k
      → (length chunk == c.rest_recv_size) ≡ true
      → read_chunk garbage addr chunk c ≡ process_v1 garbage addr stored_hdr
  unfolding ReadHdr stored_hdr
  read_hdr_whole s e = read_hdr s ∙ (rw e)

  read_hdr_part :
      InHdr c k
      → (length chunk == c.rest_recv_size) ≡ false
      → read_chunk garbage addr chunk c ≡ await (length chunk) hdr_receiving stored_hdr
  unfolding ReadHdr stored_hdr
  read_hdr_part s e = read_hdr s ∙ (rw e)

  module _ (s : InHdr c k) (f : Fits chunk c) where
    take-stored_hdr : take (k + length chunk) stored_hdr.hdr_buf ≡ take k c.hdr_buf ++ chunk
    unfolding stored_hdr
    take-stored_hdr = take-write_at c.hdr_buf chunk k (omega (arith, s.rest, s.size, f.asked))

    frames_hdr : frames (take k c.hdr_buf) chunk ≡ at_once (settle (take k c.hdr_buf ++ chunk))
    frames_hdr =
        frames-at_once (take k c.hdr_buf) chunk (λ e. ground (arith, ap length e))
          λ n p q. settle_short _ (
            omega (
              arith,
              length-append (take k c.hdr_buf) (take n chunk),
              length-take k c.hdr_buf,
              length-take n chunk,
              s.rest,
              f.asked,
            ))

    size_stored : length stored_hdr.hdr_buf ≡ pkg_hdr_buf_size
    unfolding stored_hdr
    size_stored =
        length-write_at c.hdr_buf chunk k (omega (arith, s.rest, s.size, f.asked)) ∙ s.size

    StepsHdr : Type 0
    StepsHdr =
        Steps addr c.m_cur_seq (frames (take k c.hdr_buf) chunk) (read_chunk garbage addr chunk c)

    hdr_whole : (length chunk == c.rest_recv_size) ≡ true → StepsHdr
    unfolding StepsHdr
    hdr_whole e =
        let there : k + length chunk ≡ pkg_hdr_size = ground (arith, s.rest) in
        let same : take pkg_hdr_size stored_hdr.hdr_buf ≡ take k c.hdr_buf ++ chunk =
          ap (λ n. take n stored_hdr.hdr_buf) (sym there) ∙ take-stored_hdr in
        rw (frames_hdr, read_hdr_whole s e, ← same)
          (unfold stored_hdr in process_v1-Steps garbage addr stored_hdr size_stored)

    length_part : length (take k c.hdr_buf ++ chunk) ≡ k + length chunk
    length_part =
        omega
          (arith, length-append (take k c.hdr_buf) chunk, length-take k c.hdr_buf, s.rest, s.size)

    part-InHdr :
        (length chunk == c.rest_recv_size) ≡ false
        → InHdr (await (length chunk) hdr_receiving stored_hdr).0 (k + length chunk)
    unfolding await stored_hdr
    part-InHdr e = record {
      stat = ground (arith, f.nonempty);
      ptr = rw s.ptr;
      rest = omega (arith, s.rest, f.asked);
      some_rest = ground (arith, f.asked);
      size = size_stored;
    }

    hdr_part : (length chunk == c.rest_recv_size) ≡ false → StepsHdr
    unfolding StepsHdr await stored_hdr
    hdr_part e =
        let short : k + length chunk < pkg_hdr_size = ground (arith, s.rest, f.asked) in
        rw
          (
            frames_hdr,
            read_hdr_part s e,
            settle_short (take k c.hdr_buf ++ chunk) (omega (arith, length_part, short)),
          )
          (record {
            next = hdr (k + length chunk) (part-InHdr e);
            reads = ap (λ b. ([], b)) (sym take-stored_hdr);
            stamped = tt;
            same_seq = refl;
          })

    -- A step within a header.
    pub hdr-Steps :
        Steps addr c.m_cur_seq (frames (take k c.hdr_buf) chunk) (read_chunk garbage addr chunk c)
    unfolding StepsHdr
    hdr-Steps = elim (Bool-cases (length chunk == c.rest_recv_size)) [
      | inl whole ↦ hdr_whole whole
      | inr part ↦ hdr_part part
    ]
