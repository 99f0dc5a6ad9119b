-- ===== src/Accept/Listening.antt =====
-- The connections of the listening sockets, in epoll_init of net/mgx_socket.cpp.
use my_gx.Base.{
  ℕ, List, [], ◌∷◌, Bool, true, false, Option, some, if◌then◌else◌, ◌≡◌, refl, ap, ◌∙◌,
}
use my_gx.Pool.{Pool, get_conn, close_conn}
use my_gx.Pool.Inv.{InUse, get_conn-Opened, close_conn-Inv}
use my_gx.Pool.Kept.{close_conn-GivenUp}
use my_gx.Handler.System.{Sound, accepted-Sound, GivenUp-Sound}
use my_gx.Epoll.{epoll_oper_event, switch_events, after_switch}
use my_gx.Accept.{Net, add_to_epoll, listen_conn, add_listen_skts}
use my_gx.Accept.Sound.{add_to_epoll-Sound, used-add_to_epoll}

listen_conn-Sound :
    (now fd c : ℕ) (ctl_ok : Bool) (o : Option (ℕ × Pool)) (q : Pool) (s : Net)
    → o ≡ some (c, q)
    → Sound q
    → InUse c q
    → (r : Bool × Net) × (listen_conn now ctl_ok fd o s ≡ some r) × Sound r.1.pool
unfolding listen_conn add_to_epoll epoll_oper_event switch_events after_switch
listen_conn-Sound now fd c true o q s e sound used =
    let t = record s { pool = q } in
    (_, ap (λ o. listen_conn now true fd o s) e, add_to_epoll-Sound true fd c t sound used)
listen_conn-Sound now fd c false o q s e sound used =
    let t = record s { pool = q } in
    let p = (add_to_epoll false fd c t).1.pool in
    let sound' = add_to_epoll-Sound false fd c t sound used in
    (
      _,
      ap (λ o. listen_conn now false fd o s) e,
      GivenUp-Sound c p (close_conn c p) sound' (close_conn-GivenUp c p)
          (close_conn-Inv c p sound'.inv (used-add_to_epoll false fd c t used)),
    )

add_listen_skts-cons :
    (now : ℕ) (ctl_ok : ℕ → Bool) (fd : ℕ) (fds : List ℕ) (s : Net) (r : Bool × Net)
    → listen_conn now (ctl_ok fd) fd (get_conn now fd s.pool) s ≡ some r
    → add_listen_skts now ctl_ok (fd ∷ fds) s
      ≡ (if r.0 then add_listen_skts now ctl_ok fds r.1 else some r.1)
unfolding add_listen_skts
add_listen_skts-cons now ctl_ok fd fds s r e = rw (add_listen_skts, e) refl

-- The loop goes on, or ends.
go_on :
    (now : ℕ) (ctl_ok : ℕ → Bool) (fds : List ℕ) (added : Bool) (s : Net)
    → (t : Net) × (add_listen_skts now ctl_ok fds s ≡ some t) × Sound t.pool
    → Sound s.pool
    → (t : Net) × ((if added then add_listen_skts now ctl_ok fds s else some s) ≡ some t)
      × Sound t.pool
go_on now ctl_ok fds true s rest sound = rest
go_on now ctl_ok fds false s rest sound = (s, refl, sound)

-- Giving the listening sockets their connections keeps the pool well formed and every connection in
-- use in a receiving state, wherever epoll_ctl fails.
pub add_listen_skts-Sound :
    (now : ℕ) (ctl_ok : ℕ → Bool) (fds : List ℕ) (s : Net)
    → Sound s.pool
    → (t : Net) × (add_listen_skts now ctl_ok fds s ≡ some t) × Sound t.pool
unfolding add_listen_skts
add_listen_skts-Sound now ctl_ok [] s sound = (s, refl, sound)
add_listen_skts-Sound now ctl_ok (fd ∷ fds) s sound =
    let (c, q, e, o) = get_conn-Opened now fd s.pool sound.inv in
    let (r, e', sound') =
      listen_conn-Sound now fd c (ctl_ok fd) (get_conn now fd s.pool) q s e
        (accepted-Sound now fd c s.pool q sound e) o.used in
    let (t, e_t, sound_t) =
      go_on now ctl_ok fds r.0 r.1 (add_listen_skts-Sound now ctl_ok fds r.1 sound') sound' in
    (t, add_listen_skts-cons now ctl_ok fd fds s r e' ∙ e_t, sound_t)
