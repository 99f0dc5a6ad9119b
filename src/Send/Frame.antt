-- ===== src/Send/Frame.antt =====
-- What a round of send_msg_th_func in net/mgx_socket.cpp leaves as it is, apart from the connection
-- of the message at hand.
use my_gx.Base.{ℕ, zero, suc, Bool, ◌==◌, ==_self, ==_ne, ◌≡◌, ◌≢◌, refl, ◌∙◌, Bool-cases, inl, inr}
use my_gx.Conn.{Conn}
use my_gx.Pool.{store}
use my_gx.Epoll.{EsModAction, add, epoll_oper_event, switch_events, after_switch}
use my_gx.Send.{SendSize, size, again, failed, Sender, after_send, mod_epoll_out, send_over}

-- From `s` to `t` at most the connection `a` changes, and not its sequence number.
pub record AtConn (a : ℕ) (s t : Sender) : Type 0 where
  pub others : (b : ℕ) → b ≢ a → t.conn b ≡ s.conn b
  pub same_seq : (t.conn a).m_cur_seq ≡ (s.conn a).m_cur_seq
  pub passed : t.passed ≡ s.passed
  pub ahead : t.ahead ≡ s.ahead
  pub deleted : t.deleted ≡ s.deleted
  pub count : t.m_send_list_cnt ≡ s.m_send_list_cnt
  pub begun : t.begun ≡ s.begun
  pub wire : t.wire ≡ s.wire

pub store-AtConn :
    (a : ℕ) (c : Conn) (s : Sender)
    → c.m_cur_seq ≡ (s.conn a).m_cur_seq
    → AtConn a s (record s { conn = store a c s.conn })
store-AtConn a c s e = record {
  others = λ b ne. rw (==_ne b a ne) refl;
  same_seq = rw (==_self a) e;
  passed = refl;
  ahead = refl;
  deleted = refl;
  count = refl;
  begun = refl;
  wire = refl;
}

mod_epoll_out-AtConn :
    (ctl_ok : Bool) (act : EsModAction) (a : ℕ) (s : Sender)
    → AtConn a s (mod_epoll_out ctl_ok act a s)
unfolding mod_epoll_out epoll_oper_event switch_events after_switch
mod_epoll_out-AtConn ctl_ok act a s = record {
  others = λ b ne. rw (==_ne b a ne) refl;
  same_seq = rw (==_self a) refl;
  passed = refl;
  ahead = refl;
  deleted = refl;
  count = refl;
  begun = refl;
  wire = refl;
}

AtConn-trans : (a : ℕ) (s t u : Sender) → AtConn a s t → AtConn a t u → AtConn a s u
AtConn-trans a s t u p q = record {
  others = λ b ne. q.others b ne ∙ p.others b ne;
  same_seq = q.same_seq ∙ p.same_seq;
  passed = q.passed ∙ p.passed;
  ahead = q.ahead ∙ p.ahead;
  deleted = q.deleted ∙ p.deleted;
  count = q.count ∙ p.count;
  begun = q.begun ∙ p.begun;
  wire = q.wire ∙ p.wire;
}

pub after_send-AtConn :
    (ctl_ok : Bool) (a : ℕ) (sent : SendSize) (s : Sender) → AtConn a s (after_send ctl_ok a sent s)
unfolding after_send send_over
after_send-AtConn ctl_ok a (size zero) s = store-AtConn a _ s refl
after_send-AtConn ctl_ok a (size (suc n)) s =
    elim (Bool-cases (suc n == (s.conn a).rest_send_size)) [
      | inl whole ↦ rw whole (store-AtConn a _ s refl)
      | inr part ↦
          rw part
            (AtConn-trans a s _ _ (store-AtConn a _ s refl) (mod_epoll_out-AtConn ctl_ok add a _))
    ]
after_send-AtConn ctl_ok a again s =
    AtConn-trans a s _ _ (store-AtConn a _ s refl) (mod_epoll_out-AtConn ctl_ok add a _)
after_send-AtConn ctl_ok a failed s = store-AtConn a _ s refl
