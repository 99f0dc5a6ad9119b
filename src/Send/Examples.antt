-- ===== src/Send/Examples.antt =====
-- Tests and instances for the sending of messages in net/mgx_socket.cpp.
use my_gx.Base.{
  ℕ, zero, suc, ◌+◌, List, [], ◌∷◌, Bool, true, false, Option, none, some, ◌≡◌, refl, arith, length,
}
use my_gx.Conn.{Conn, MsgBuf}
use my_gx.Receive.{pkg_size}
use my_gx.Pool.{blank}
use my_gx.Epoll.{epoll_in, epoll_out, epoll_rdhup, epoll_oper_event}
use my_gx.Send.{
  SendCalls, accepted, eagain, eintr, Sender, send_pass, at_message, at_live, begin_pass,
  begin_message, drop_stale, send_msg, send_msg_handler, number_bytes, taken, send_uninterrupt,
}
use my_gx.Send.Pass.{AllPresent, Passed, send_pass-Passed}
use my_gx.Send.Message.{Outcome, begin_message-Outcome}
use my_gx.Send.Writable.{write_events, Drained, write_events-Drained, send_msg_handler_header}
use my_gx.Send.Watch.{HasOut, IsWatched}
use my_gx.Send.Steps.{Inv, none_yet, then_step, queued, writable, Steps-Inv}

-- A package of ten bytes for the connection `c`.
abbrev message : ℕ → ℕ → MsgBuf
message c last = record {
  pconn = c;
  cur_seq = 6;
  bytes = 10 ∷ 0 ∷ 2 ∷ 0 ∷ 0 ∷ 0 ∷ 0 ∷ 0 ∷ 77 ∷ last ∷ [];
}

abbrev quiet : Conn
quiet = record blank { m_cur_seq = 6; events = epoll_in + epoll_rdhup }

abbrev sender : List MsgBuf → Sender
sender queue = record {
  conn = λ c. quiet;
  passed = queue;
  ahead = [];
  deleted = false;
  m_send_list_cnt = length queue;
  send_tokens = 1;
  begun = [];
  wire = [];
  ctl_calls = [];
}

abbrev three : List MsgBuf
three = message 1 11 ∷ message 2 12 ∷ message 1 13 ∷ []

-- The first call of send takes four bytes, later ones all, after an interruption.
abbrev answers : ℕ → SendCalls × Bool
answers zero = (accepted 4, true)
answers (suc n) = (eintr (accepted 10), true)

abbrev after_pass : Option Sender → List MsgBuf × List MsgBuf
after_pass none = ([], [])
after_pass (some s) = (s.begun, s.passed)

pass_of_three :
    after_pass (send_pass three answers (begin_pass (sender three)))
    ≡ (message 1 11 ∷ message 2 12 ∷ [], message 1 13 ∷ [])
unfolding send_pass at_message at_live begin_pass begin_message drop_stale blank pkg_size
    epoll_oper_event
pass_of_three = refl

-- The first message was passed over while its connection was sending, and then the write handler
-- ended the sending: the next one overtakes it.
overtaken :
    after_pass (
      at_message (accepted 10) true (message 1 13) [] (record (sender []) {
        passed = message 1 12 ∷ [];
        ahead = message 1 13 ∷ [];
        m_send_list_cnt = 2;
      }))
    ≡ (message 1 13 ∷ [], message 1 12 ∷ [])
unfolding at_message at_live begin_message blank pkg_size
overtaken = refl

-- A message of an earlier use of its connection.
stale_message : send_pass (record (message 1 11) { cur_seq = 5 } ∷ []) answers (sender []) ≡ none
unfolding send_pass at_message at_live drop_stale blank
stale_message = refl

send_pass-Passed_example :
    (t : Sender) × (send_pass (begin_pass (sender three)).ahead answers (begin_pass (sender three))
      ≡ some t)
    × Passed three (sender three) t
unfolding AllPresent blank
send_pass-Passed_example =
    send_pass-Passed answers (sender three) refl (omega arith) refl refl (refl, (refl, (refl, tt)))

begin_message-Outcome_example :
    let t = begin_message (accepted 4) true (message 1 11) [] (sender three) in
    let sent = taken (send_uninterrupt (accepted 4)) (message 1 11).bytes in
    (t.wire ≡ (1, sent) ∷ []) × Outcome (message 1 11) sent (t.conn 1)
unfolding blank pkg_size send_uninterrupt
begin_message-Outcome_example =
    begin_message-Outcome (accepted 4) true (message 1 11) [] (sender three) refl refl (omega arith)

-- Six bytes left of the message.
abbrev half_sent : Sender
half_sent = record (sender []) {
  conn = λ c. record quiet {
    psend_buf = 4;
    rest_send_size = 6;
    psend_mem_addr = some (message 1 11);
    throw_send_cnt = 1;
    events = epoll_in + epoll_rdhup + epoll_out;
  };
}

write_events-Drained_example : Drained 1 half_sent (write_events true 1 (5 ∷ 1 ∷ []) half_sent)
unfolding blank
write_events-Drained_example =
    write_events-Drained true 1 5 (1 ∷ []) half_sent (omega arith, (omega arith, tt)) refl

send_msg_handler_header_example :
    (send_msg_handler (accepted 6) true 1 half_sent).wire ≡ (1, 1 ∷ 0 ∷ 0 ∷ 0 ∷ 0 ∷ 0 ∷ []) ∷ []
unfolding blank number_bytes send_uninterrupt
send_msg_handler_header_example =
    send_msg_handler_header (accepted 6) true 1 6 (message 1 11) half_sent refl (omega arith) refl

half_sent-IsWatched : (a : ℕ) → IsWatched (half_sent.conn a)
unfolding blank HasOut
half_sent-IsWatched a = record { sending = λ h. refl }

Steps-Inv_example : Inv (send_msg_handler eagain true 1 (send_msg (message 1 11) half_sent))
Steps-Inv_example =
    Steps-Inv half_sent _
      (then_step _ _ (then_step _ _ none_yet (queued (message 1 11))) (writable eagain true 1))
      (record { counted = refl; watched = λ a. half_sent-IsWatched a })
