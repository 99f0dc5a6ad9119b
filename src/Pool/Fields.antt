-- ===== src/Pool/Fields.antt =====
-- What the operations of net/mgx_socket_conn.cpp do to the descriptor and the instance bit.
use my_gx.Base.{
  ltb, ℕ, ◌<◌, List, [], ◌∷◌, not, none, some, ==_self, ◌≡◌, refl, subst, Bool-cases, inl, inr,
  lt→ltb,
}
use mathlib.Core.Option.{some-injective}
use my_gx.Conn.{get_one_to_use, put_one_to_free}
use my_gx.Pool.{
  Pool, get_conn, new_conn, reuse_conn, close_conn, close_fd, free_conn, insert_recy_conn_queue,
  contains,
}

reuse_conn_bit :
    (now fd a : ℕ) (queue : List ℕ) (p q : Pool)
    → reuse_conn now fd queue p ≡ some (a, q)
    → (q.conn a).instance_bit ≡ not (p.conn a).instance_bit
unfolding reuse_conn get_one_to_use
reuse_conn_bit now fd a [] p q r = cc
reuse_conn_bit now fd a (c ∷ rest) p q r =
    subst (λ t. (t.1.conn t.0).instance_bit ≡ not (p.conn t.0).instance_bit) (some-injective _ _ r)
      (rw (==_self c) refl)

pub reused_bit :
    (now fd a : ℕ) (p q : Pool)
    → 0 < p.free_conns_cnt
    → get_conn now fd p ≡ some (a, q)
    → (q.conn a).instance_bit ≡ not (p.conn a).instance_bit
unfolding get_conn
reused_bit now fd a p q free e =
    reuse_conn_bit now fd a p.pconns_free_queue p q (rw (lt→ltb _ _ free) at e)

pub close_conn_fd : (c : ℕ) (p : Pool) → ((close_conn c p).conn c).fd ≡ none
unfolding close_conn close_fd free_conn put_one_to_free
close_conn_fd c p = rw (==_self c) refl

pub insert_recy_fd :
    (now c : ℕ) (p : Pool) → ((insert_recy_conn_queue now c p).conn c).fd ≡ (p.conn c).fd
unfolding insert_recy_conn_queue close_fd
insert_recy_fd now c p = elim (Bool-cases (contains c p.recy_conn_set)) [
  | inl there ↦ rw there refl
  | inr new ↦ rw (new, ==_self c) refl
]

pub insert_recy_bit :
    (now c : ℕ) (p : Pool)
    → ((insert_recy_conn_queue now c p).conn c).instance_bit ≡ (p.conn c).instance_bit
unfolding insert_recy_conn_queue close_fd
insert_recy_bit now c p = elim (Bool-cases (contains c p.recy_conn_set)) [
  | inl there ↦ rw there refl
  | inr new ↦ rw (new, ==_self c) refl
]

-- What get_conn says of the connection that it hands out.
pub record Handed (fd c : ℕ) (p q : Pool) : Type 0 where
  pub its_fd : (q.conn c).fd ≡ some fd
  pub closed : q.closed ≡ p.closed
  pub timers : q.timers ≡ p.timers
  pub heartbeat : q.enabled_heartbeat ≡ p.enabled_heartbeat

reuse_conn-Handed :
    (now fd c : ℕ) (queue : List ℕ) (p q : Pool)
    → reuse_conn now fd queue p ≡ some (c, q)
    → Handed fd c p q
unfolding reuse_conn
reuse_conn-Handed now fd c [] p q r = cc
reuse_conn-Handed now fd c (d ∷ rest) p q r =
    subst (λ t. Handed fd t.0 p t.1) (some-injective _ _ r)
      (record { its_fd = rw (==_self d) refl; closed = refl; timers = refl; heartbeat = refl })

pub get_conn-Handed :
    (now fd c : ℕ) (p q : Pool) → get_conn now fd p ≡ some (c, q) → Handed fd c p q
unfolding get_conn new_conn
get_conn-Handed now fd c p q r = elim (Bool-cases (ltb 0 p.free_conns_cnt)) [
  | inl free ↦ reuse_conn-Handed now fd c p.pconns_free_queue p q (rw free at r)
  | inr full ↦
      subst (λ t. Handed fd t.0 p t.1) (some-injective _ _ (rw full at r))
        (record {
          its_fd = rw (==_self p.next) refl;
          closed = refl;
          timers = refl;
          heartbeat = refl;
        })
]

pub close_conn_closed : (c : ℕ) (p : Pool) → (close_conn c p).closed ≡ (p.conn c).fd ∷ p.closed
unfolding close_conn close_fd free_conn
close_conn_closed c p = refl
