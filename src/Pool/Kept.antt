-- ===== src/Pool/Kept.antt =====
-- What the pool calls of net/mgx_socket_conn.cpp leave as it was in the connections.
use my_gx.Base.{
  ℕ, ◌<◌, List, [], ◌∷◌, false, some, ltb, ◌==◌, ◌≡◌, ◌≢◌, refl, ap, subst, ◌∙◌, arith, inl, inr,
  Bool-cases, ==_ne, ==_self, length,
}
use mathlib.Core.Option.{some-injective}
use my_gx.Conn.{
  Conn, RecvStat, RecvPtr, get_one_to_use, put_one_to_free, pkg_hdr_size, pkg_hdr_buf_size,
}
use my_gx.Pool.{
  Pool, store, new_conn, reuse_conn, get_conn, free_conn, contains, close_fd,
  insert_recy_conn_queue, close_conn, reclaim, blank,
}
use my_gx.Pool.Inv.{InUse, occ, contains-occ, idle-insert_recy, idle-close_conn, idle-reclaim}

-- All header buffers have their size.
abbrev pub AllBuffers : Pool → Type 0
AllBuffers p = (a : ℕ) → length (p.conn a).hdr_buf ≡ pkg_hdr_buf_size

-- From `p` to `q` only the connection `c` changed, and nobody took one into use.
pub record Kept (c : ℕ) (p q : Pool) : Type 0 where
  pub conns : (a : ℕ) → a ≢ c → q.conn a ≡ p.conn a
  pub in_use : (a : ℕ) → a ≢ c → InUse a q → InUse a p
  pub buffers : AllBuffers p → AllBuffers q

-- Kept, and the connection `c` is not in use.
pub record GivenUp (c : ℕ) (p q : Pool) : Type 0 where
  pub kept : Kept c p q
  pub gone : ¬ InUse c q

pub store-buffers :
    (c : ℕ) (d : Conn) (f : ℕ → Conn)
    → ((a : ℕ) → length (f a).hdr_buf ≡ pkg_hdr_buf_size)
    → length d.hdr_buf ≡ pkg_hdr_buf_size
    → (a : ℕ) → length (store c d f a).hdr_buf ≡ pkg_hdr_buf_size
store-buffers c d f hf hd a = elim (Bool-cases (a == c)) [
  | inl same ↦ rw same hd
  | inr other ↦ rw other (hf a)
]

pub insert_recy-GivenUp :
    (now c : ℕ) (p : Pool) → InUse c p → GivenUp c p (insert_recy_conn_queue now c p)
unfolding insert_recy_conn_queue close_fd
insert_recy-GivenUp now c p u =
    let new : contains c p.recy_conn_set ≡ false =
      contains-occ c p.recy_conn_set ∙ ground (arith, u.busy) in
    record {
      kept = record {
        conns = λ a ne. rw (new, ==_ne a c ne) refl;
        in_use = λ a ne v. record {
          made = rw new at v.made;
          busy = ground (arith, v.busy, idle-insert_recy now a c p, ==_ne a c ne);
        };
        buffers = λ b a. rw new (store-buffers c _ p.conn b (b c) a);
      };
      gone = λ v. ground (arith, v.busy, idle-insert_recy now c c p, new, ==_self c);
    }

pub close_conn-GivenUp : (c : ℕ) (p : Pool) → GivenUp c p (close_conn c p)
unfolding close_conn close_fd free_conn put_one_to_free
close_conn-GivenUp c p = record {
  kept = record {
    conns = λ a ne. rw (==_ne a c ne) refl;
    in_use =
        λ a ne u. record { made = u.made; busy = ground (arith, u.busy, idle-close_conn a c p) };
    buffers = λ b a. store-buffers c (put_one_to_free (p.conn c)) p.conn b (b c) a;
  };
  gone = λ u. ground (arith, u.busy, idle-close_conn c c p);
}

pub reclaim-GivenUp : (c : ℕ) (p : Pool) → 0 < occ c p.recy_conn_set → GivenUp c p (reclaim c p)
unfolding reclaim free_conn put_one_to_free
reclaim-GivenUp c p h = record {
  kept = record {
    conns = λ a ne. rw (==_ne a c ne) refl;
    in_use = λ a ne u. record { made = u.made; busy = omega (arith, u.busy, idle-reclaim a c p h) };
    buffers = λ b a. store-buffers c (put_one_to_free (p.conn c)) p.conn b (b c) a;
  };
  gone = λ u. omega (arith, u.busy, idle-reclaim c c p h);
}

-- A connection that was just taken into use.
pub record IsFresh (c : ℕ) (p q : Pool) : Type 0 where
  pub kept : Kept c p q
  pub stat : (q.conn c).recv_stat ≡ RecvStat.hdr_start
  pub ptr : (q.conn c).precv_buf ≡ RecvPtr.in_hdr 0
  pub rest : (q.conn c).rest_recv_size ≡ pkg_hdr_size

reuse_conn-IsFresh :
    (now fd c : ℕ) (l : List ℕ) (p q : Pool)
    → l ≡ p.pconns_free_queue
    → reuse_conn now fd l p ≡ some (c, q)
    → IsFresh c p q
unfolding reuse_conn get_one_to_use occ
reuse_conn-IsFresh now fd c [] p q e r = cc
reuse_conn-IsFresh now fd c (d ∷ rest) p q e r =
    subst (λ t. IsFresh t.0 p t.1) (some-injective _ _ r)
      (record {
        kept = record {
          conns = λ a ne. rw (==_ne a d ne) refl;
          in_use = λ a ne u. record {
            made = u.made;
            busy = ground (arith, u.busy, ap (occ a) e, ==_ne a d ne);
          };
          buffers = λ b a. store-buffers d _ p.conn b (b d) a;
        };
        stat = rw (==_self d) refl;
        ptr = rw (==_self d) refl;
        rest = rw (==_self d) refl;
      })

pub get_conn-IsFresh : (now fd c : ℕ) (p q : Pool) → get_conn now fd p ≡ some (c, q) → IsFresh c p q
unfolding get_conn new_conn get_one_to_use blank
get_conn-IsFresh now fd c p q r = elim (Bool-cases (ltb 0 p.free_conns_cnt)) [
  | inl free ↦ reuse_conn-IsFresh now fd c p.pconns_free_queue p q refl (rw free at r)
  | inr full ↦
      subst (λ t. IsFresh t.0 p t.1) (some-injective _ _ (rw full at r))
        (record {
          kept = record {
            conns = λ a ne. rw (==_ne a p.next ne) refl;
            in_use = λ a ne u. record { made = omega (arith, u.made, ne); busy = u.busy };
            buffers = λ b a.
                let made = store-buffers p.next (get_one_to_use now blank) p.conn b refl in
                store-buffers p.next _ (store p.next (get_one_to_use now blank) p.conn) made
                  (made p.next) a;
          };
          stat = rw (==_self p.next) refl;
          ptr = rw (==_self p.next) refl;
          rest = rw (==_self p.next) refl;
        })
]

-- Delayed recovery of `c` leaves the other connections where they are, and `c` in the recovery set.
pub insert_recy-others :
    (now a c : ℕ) (p : Pool)
    → a ≢ c
    → ((insert_recy_conn_queue now c p).conn a ≡ p.conn a)
      × (occ a (insert_recy_conn_queue now c p).recy_conn_set ≡ occ a p.recy_conn_set)
unfolding insert_recy_conn_queue close_fd occ
insert_recy-others now a c p ne = elim (Bool-cases (contains c p.recy_conn_set)) [
  | inl there ↦ rw there (refl, refl)
  | inr new ↦ rw (new, ==_ne a c ne) (refl, omega arith)
]

pub insert_recy-there :
    (now c : ℕ) (p : Pool) → 0 < occ c (insert_recy_conn_queue now c p).recy_conn_set
unfolding insert_recy_conn_queue close_fd occ
insert_recy-there now c p = elim (Bool-cases (contains c p.recy_conn_set)) [
  | inl there ↦ rw there (ground (arith, contains-occ c p.recy_conn_set))
  | inr new ↦ rw (new, ==_self c) (omega arith)
]
