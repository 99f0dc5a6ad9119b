-- ===== src/Receive/BodyStep.antt =====
-- A read event of net/mgx_socket_request.cpp within a package body.
use my_gx.Base.{
  ℕ, ◌+◌, ◌≤◌, ◌<◌, true, false, List, [], ◌∷◌, ◌++◌, Option, none, some, length, take, ◌==◌,
  if◌then◌else◌, ◌≡◌, refl, sym, ap, ◌∙◌, arith, length-append, length-take, write_at,
  length-write_at, take-write_at, take_of_le, take-length, inl, inr, Bool-cases,
}
use my_gx.Conn.{Conn, MsgBuf, RecvStat, in_msg, body_start, body_receiving, pkg_hdr_size}
use my_gx.Receive.{pkg_size, store_chunk, restart, process_v2, await, received, read_chunk}
use my_gx.Receive.Frames.{
  settle, frames, at_once, frames-at_once, pkg_size-append, settle_whole, settle_open,
}
use my_gx.Receive.State.{InBody, hdr, body, Steps, pkg_size-take, restart-InHdr, Fits}

module _ (garbage addr : ℕ) (chunk : List ℕ) (c : Conn) (k : ℕ) (m : MsgBuf) where
  -- The message once recv has stored the chunk in it.
  stored_msg : MsgBuf
  stored_msg = record m { bytes = write_at m.bytes k chunk }

  stored_body : Conn
  stored_body = record c { precv_mem_addr = some stored_msg }

  store_body :
      c.precv_buf ≡ in_msg k → c.precv_mem_addr ≡ some m → store_chunk chunk c ≡ stored_body
  unfolding store_chunk stored_body stored_msg
  store_body e e' = rw (e, e')

  ReadBody : Conn → Conn × Option MsgBuf
  ReadBody d =
      if length chunk == d.rest_recv_size
      then process_v2 d
      else await (length chunk) body_receiving d

  received_as :
      (st : RecvStat) (d : Conn)
      → c.recv_stat ≡ st
      → received garbage addr (length chunk) c.recv_stat d
        ≡ received garbage addr (length chunk) st d
  received_as st d e = ap (λ t. received garbage addr (length chunk) t d) e

  read_body : InBody addr c k m → read_chunk garbage addr chunk c ≡ ReadBody stored_body
  unfolding read_chunk
  read_body s =
      ap (received garbage addr (length chunk) c.recv_stat) (store_body s.ptr s.mem)
      ∙ elim (Bool-cases (k == pkg_hdr_size)) [
        | inl start ↦
            received_as body_start stored_body (ground arith) ∙ (unfold received ReadBody in refl)
        | inr later ↦
            received_as body_receiving stored_body (ground arith)
            ∙ (unfold received ReadBody in refl)
      ]

  read_body_whole :
      InBody addr c k m
      → (length chunk == c.rest_recv_size) ≡ true
      → read_chunk garbage addr chunk c
        ≡ (restart (record c { precv_mem_addr = none }), some stored_msg)
  unfolding ReadBody stored_body process_v2
  read_body_whole s e = read_body s ∙ (rw e)

  read_body_part :
      InBody addr c k m
      → (length chunk == c.rest_recv_size) ≡ false
      → read_chunk garbage addr chunk c ≡ await (length chunk) body_receiving stored_body
  unfolding ReadBody stored_body
  read_body_part s e = read_body s ∙ (rw e)

  module _ (s : InBody addr c k m) (f : Fits chunk c) where
    room : k + length chunk ≤ length m.bytes
    room = omega (arith, s.rest, s.size, f.asked)

    length-stored : length stored_msg.bytes ≡ length m.bytes
    unfolding stored_msg
    length-stored = length-write_at m.bytes chunk k room

    take-stored : take (k + length chunk) stored_msg.bytes ≡ take k m.bytes ++ chunk
    unfolding stored_msg
    take-stored = take-write_at m.bytes chunk k room

    -- The size of the package is read from bytes that stay.
    size-front : (n : ℕ) → pkg_size (take k m.bytes ++ take n chunk) ≡ pkg_size m.bytes
    size-front n =
        pkg_size-append (take k m.bytes) (take n chunk)
          (omega (arith, length-take k m.bytes, s.from, room))
        ∙ pkg_size-take k m.bytes (omega (arith, s.from)) (omega (arith, room))

    size-all : pkg_size (take k m.bytes ++ chunk) ≡ pkg_size m.bytes
    size-all =
        ap (λ l. pkg_size (take k m.bytes ++ l)) (sym (take-length chunk))
        ∙ size-front (length chunk)

    size-stored : pkg_size stored_msg.bytes ≡ pkg_size m.bytes
    size-stored =
        sym (
          pkg_size-take (k + length chunk) stored_msg.bytes (omega (arith, s.from))
            (omega (arith, length-stored, room)))
        ∙ ap pkg_size take-stored
        ∙ size-all

    length_read : length (take k m.bytes ++ chunk) ≡ k + length chunk
    length_read = omega (arith, length-append (take k m.bytes) chunk, length-take k m.bytes, room)

    frames_body : frames (take k m.bytes) chunk ≡ at_once (settle (take k m.bytes ++ chunk))
    frames_body =
        frames-at_once (take k m.bytes) chunk (λ e. ground (arith, ap length e))
          λ n p q. settle_open (take k m.bytes ++ take n chunk) (rw (size-front n) s.good) (
            omega (
              arith,
              size-front n,
              length-append (take k m.bytes) (take n chunk),
              length-take k m.bytes,
              length-take n chunk,
              s.rest,
              f.asked,
            ))

    StepsBody : Type 0
    StepsBody =
        Steps addr c.m_cur_seq (frames (take k m.bytes) chunk) (read_chunk garbage addr chunk c)

    body_whole : (length chunk == c.rest_recv_size) ≡ true → StepsBody
    unfolding StepsBody
    body_whole e =
        let there : k + length chunk ≡ pkg_size m.bytes = ground (arith, s.rest) in
        let whole =
          settle_whole (take k m.bytes ++ chunk) (rw size-all s.good)
            (omega (arith, length_read, there, size-all)) in
        let all : stored_msg.bytes ≡ take k m.bytes ++ chunk =
          sym (
            take_of_le (k + length chunk) stored_msg.bytes
              (omega (arith, length-stored, there, s.size)))
          ∙ take-stored in
        rw (frames_body, read_body_whole s e, whole)
          (record {
            next = hdr 0 (restart-InHdr (record c { precv_mem_addr = none }) s.hdr_size);
            reads = ap (λ b. (b ∷ [], [])) (sym all);
            stamped = unfold stored_msg in s.stamped;
            same_seq = unfold restart in refl;
          })

    part-InBody :
        (length chunk == c.rest_recv_size) ≡ false
        → InBody addr
            (await (length chunk) body_receiving stored_body).0
            (k + length chunk)
            stored_msg
    unfolding await stored_body
    part-InBody e = record {
      stat = ground (arith, f.nonempty, s.from);
      ptr = rw s.ptr;
      mem = refl;
      from = omega (arith, s.from);
      rest = omega (arith, s.rest, f.asked, size-stored);
      some_rest = ground (arith, f.asked);
      size = length-stored ∙ s.size ∙ sym size-stored;
      good = rw size-stored s.good;
      stamped = unfold stored_msg in s.stamped;
      hdr_size = s.hdr_size;
    }

    body_part : (length chunk == c.rest_recv_size) ≡ false → StepsBody
    unfolding StepsBody await stored_body
    body_part e =
        let short : k + length chunk < pkg_size m.bytes = ground (arith, s.rest, f.asked) in
        let quiet =
          settle_open (take k m.bytes ++ chunk) (rw size-all s.good)
            (omega (arith, length_read, short, size-all)) in
        rw (frames_body, read_body_part s e, quiet)
          (record {
            next = body (k + length chunk) stored_msg (part-InBody e);
            reads = ap (λ b. ([], b)) (sym take-stored);
            stamped = tt;
            same_seq = refl;
          })

    -- A step within a body.
    pub body-Steps :
        Steps addr c.m_cur_seq (frames (take k m.bytes) chunk) (read_chunk garbage addr chunk c)
    unfolding StepsBody
    body-Steps = elim (Bool-cases (length chunk == c.rest_recv_size)) [
      | inl whole ↦ body_whole whole
      | inr part ↦ body_part part
    ]
