-- ===== src/Receive/Header.antt =====
-- read_request_handler_process_v1 of net/mgx_socket_request.cpp, branch by branch.
use my_gx.Base.{
  ℕ, ◌-◌, ◌≤◌, true, false, List, [], ◌∷◌, none, some, length, take, replicate, ◌==◌, ◌≡◌, refl,
  sym, ap, ◌∙◌, arith, length-take, length-replicate, write_at, length-write_at, take_of_le,
  take-append_of_le, take-length, inl, inr, Bool-cases, ==_iff,
}
use my_gx.Conn.{Conn, MsgBuf, in_msg, body_start, pkg_hdr_size, pkg_hdr_buf_size}
use my_gx.Receive.{pkg_size, restart, process_v1}
use my_gx.Receive.Frames.{is_bad, settle, at_once, settle_bad, settle_whole, settle_open}
use my_gx.Receive.State.{InBody, hdr, body, Steps, pkg_size-take, restart-InHdr}

module _ (garbage addr : ℕ) (c : Conn) (full : length c.hdr_buf ≡ pkg_hdr_buf_size) where
  hdr_bytes : List ℕ
  hdr_bytes = take pkg_hdr_size c.hdr_buf

  length-hdr_bytes : length hdr_bytes ≡ pkg_hdr_size
  unfolding hdr_bytes
  length-hdr_bytes = omega (arith, length-take pkg_hdr_size c.hdr_buf)

  same_size : pkg_size hdr_bytes ≡ pkg_size c.hdr_buf
  unfolding hdr_bytes
  same_size = pkg_size-take pkg_hdr_size c.hdr_buf (omega arith) (omega arith)

  -- The buffer of a message whose header is complete.
  fresh : List ℕ
  fresh = write_at (replicate (pkg_size c.hdr_buf) garbage) 0 hdr_bytes

  module _ (fits : pkg_hdr_size ≤ pkg_size c.hdr_buf) where
    take-fresh : take pkg_hdr_size fresh ≡ hdr_bytes
    unfolding fresh
    take-fresh =
        ap (λ k. take k fresh) (sym length-hdr_bytes)
        ∙ take-append_of_le (length hdr_bytes) hdr_bytes _ (omega arith)
        ∙ take-length hdr_bytes

    length-fresh : length fresh ≡ pkg_size c.hdr_buf
    unfolding fresh
    length-fresh = omega (
      arith,
      length-write_at (replicate (pkg_size c.hdr_buf) garbage) hdr_bytes 0,
      length-replicate (pkg_size c.hdr_buf) garbage,
      length-hdr_bytes,
    )

    pkg_size-fresh : pkg_size fresh ≡ pkg_size c.hdr_buf
    pkg_size-fresh =
        sym (pkg_size-take pkg_hdr_size fresh (omega arith) (omega (arith, length-fresh)))
        ∙ ap pkg_size take-fresh
        ∙ same_size

  msg : MsgBuf
  msg = record { pconn = addr; cur_seq = c.m_cur_seq; bytes = fresh }

  -- The state after a header that announces a body.
  body_state : Conn
  body_state = record c {
    precv_mem_addr = some msg;
    recv_stat = body_start;
    precv_buf = in_msg pkg_hdr_size;
    rest_recv_size = pkg_size c.hdr_buf - pkg_hdr_size;
  }

  v1_bad : is_bad (pkg_size c.hdr_buf) ≡ true → process_v1 garbage addr c ≡ (restart c, none)
  unfolding process_v1
  v1_bad bad = rw bad

  v1_lone :
      is_bad (pkg_size c.hdr_buf) ≡ false
      → (pkg_size c.hdr_buf == pkg_hdr_size) ≡ true
      → process_v1 garbage addr c ≡ (restart (record c { precv_mem_addr = none }), some msg)
  unfolding process_v1 msg fresh hdr_bytes
  v1_lone good lone = rw (good, lone)

  v1_body :
      is_bad (pkg_size c.hdr_buf) ≡ false
      → (pkg_size c.hdr_buf == pkg_hdr_size) ≡ false
      → process_v1 garbage addr c ≡ (body_state, none)
  unfolding process_v1 body_state msg fresh hdr_bytes
  v1_body good more = rw (good, more)

  body_state-InBody :
      is_bad (pkg_size c.hdr_buf) ≡ false
      → (pkg_size c.hdr_buf == pkg_hdr_size) ≡ false
      → InBody addr body_state pkg_hdr_size msg
  unfolding body_state msg
  body_state-InBody good more =
      let fits : pkg_hdr_size ≤ pkg_size c.hdr_buf = ground arith in
      let size = pkg_size-fresh fits in
      record {
        stat = refl;
        ptr = refl;
        mem = refl;
        from = omega arith;
        rest = omega (arith, size, fits);
        some_rest = ground arith;
        size = length-fresh fits ∙ sym size;
        good = rw size good;
        stamped = (refl, refl);
        hdr_size = full;
      }

  StepsV1 : Type 0
  StepsV1 = Steps addr c.m_cur_seq (at_once (settle hdr_bytes)) (process_v1 garbage addr c)

  Steps_bad : is_bad (pkg_size c.hdr_buf) ≡ true → StepsV1
  unfolding StepsV1
  Steps_bad bad =
      rw (settle_bad hdr_bytes (omega (arith, length-hdr_bytes)) (rw same_size bad), v1_bad bad)
        (record {
          next = hdr 0 (restart-InHdr c full);
          reads = refl;
          stamped = tt;
          same_seq = unfold restart in refl;
        })

  Steps_lone :
      is_bad (pkg_size c.hdr_buf) ≡ false → (pkg_size c.hdr_buf == pkg_hdr_size) ≡ true → StepsV1
  unfolding StepsV1 msg
  Steps_lone good lone =
      let size : pkg_size c.hdr_buf ≡ pkg_hdr_size = (==_iff _ _).0 lone in
      let whole =
        settle_whole hdr_bytes (rw same_size good)
          (omega (arith, length-hdr_bytes, same_size, size)) in
      let all : fresh ≡ hdr_bytes =
        sym
          (take_of_le pkg_hdr_size fresh (omega (arith, size, length-fresh (omega (arith, size)))))
        ∙ take-fresh (omega (arith, size)) in
      rw (whole, v1_lone good lone)
        (record {
          next = hdr 0 (restart-InHdr (record c { precv_mem_addr = none }) full);
          reads = ap (λ b. (b ∷ [], [])) (sym all);
          stamped = (refl, refl);
          same_seq = unfold restart in refl;
        })

  Steps_body :
      is_bad (pkg_size c.hdr_buf) ≡ false → (pkg_size c.hdr_buf == pkg_hdr_size) ≡ false → StepsV1
  unfolding StepsV1 msg
  Steps_body good more =
      let open_ =
        settle_open hdr_bytes (rw same_size good) (ground (arith, length-hdr_bytes, same_size)) in
      rw (open_, v1_body good more)
        (record {
          next = body pkg_hdr_size msg (body_state-InBody good more);
          reads = ap (λ b. ([], b)) (sym (take-fresh (ground arith)));
          stamped = tt;
          same_seq = unfold body_state in refl;
        })

  -- A complete header is read as `settle` reads it.
  pub process_v1-Steps :
      Steps addr c.m_cur_seq
        (at_once (settle (take pkg_hdr_size c.hdr_buf)))
        (process_v1 garbage addr c)
  unfolding StepsV1 hdr_bytes
  process_v1-Steps = elim (Bool-cases (is_bad (pkg_size c.hdr_buf))) [
    | inl bad ↦ Steps_bad bad
    | inr good ↦ elim (Bool-cases (pkg_size c.hdr_buf == pkg_hdr_size)) [
      | inl lone ↦ Steps_lone good lone
      | inr more ↦ Steps_body good more
    ]
  ]
