-- ===== src/Pool/Recovery.antt =====
-- The recovery thread of net/mgx_socket_conn.cpp: one pass of recy_conn_th_func over the set.
use my_gx.Base.{
  ℕ, zero, suc, ◌+◌, ◌≤◌, ◌<◌, List, [], ◌∷◌, leb, ◌≡◌, refl, arith, length, inl, inr, Bool-cases,
}
use my_gx.Conn.{put_one_to_free}
use my_gx.Pool.{Pool, free_conn, reclaim, is_over, recy_round, recy_loop}
use my_gx.Pool.Inv.{Inv, occ, reclaim-Inv, occ-erase, length-erase, occ_cons}

-- The deadlines do not move while connections are taken back.
abbrev pub deadline : ℕ → Pool → ℕ
deadline c p = (p.conn c).in_recy_time + p.recy_conn_wait_time

deadline-reclaim : (a c : ℕ) (p : Pool) → deadline a (reclaim c p) ≡ deadline a p
unfolding reclaim free_conn put_one_to_free
deadline-reclaim a c p = ground arith

is_over-deadline : (cur c : ℕ) (p : Pool) → is_over cur c p ≡ leb (deadline c p) cur
unfolding is_over
is_over-deadline cur c p = refl

abbrev pub DueBy : ℕ → List ℕ → Pool → Type 0
DueBy t [] p = Unit {0}
DueBy t (c ∷ todo) p = (deadline c p ≤ t) × DueBy t todo p

DueBy-reclaim : (t c : ℕ) (todo : List ℕ) (p : Pool) → DueBy t todo p → DueBy t todo (reclaim c p)
DueBy-reclaim t c [] p d = tt
DueBy-reclaim t c (a ∷ todo) p (h, d) =
    (omega (arith, h, deadline-reclaim a c p), DueBy-reclaim t c todo p d)

recy_loop_nil :
    (fuel : ℕ) (clock : ℕ → ℕ) (i : ℕ) (p : Pool) → recy_loop fuel clock i [] p ≡ ([], p)
unfolding recy_loop recy_round
recy_loop_nil zero clock i p = refl
recy_loop_nil (suc fuel) clock i p = recy_loop_nil fuel clock (i + 1) p

-- What is in the iterator's way is in the set.
abbrev pub Pending : List ℕ → Pool → Type 0
Pending todo p = (a : ℕ) → occ a todo ≤ occ a p.recy_conn_set

pub record Done (todo : List ℕ) (p : Pool) (r : List ℕ × Pool) : Type 0 where
  pub empty : r.0 ≡ []
  pub inv : Inv r.1
  pub freed : r.1.free_conns_cnt ≡ p.free_conns_cnt + length todo
  pub left : r.1.total_recy_conns_cnt + length todo ≡ p.total_recy_conns_cnt

reclaim-counts :
    (c : ℕ) (p : Pool)
    → Inv p
    → 0 < occ c p.recy_conn_set
    → ((reclaim c p).free_conns_cnt ≡ p.free_conns_cnt + 1)
      × ((reclaim c p).total_recy_conns_cnt + 1 ≡ p.total_recy_conns_cnt)
unfolding reclaim free_conn
reclaim-counts c p v h = (refl, omega (arith, v.recy_count, length-erase c p.recy_conn_set h))

reclaim-Pending :
    (c : ℕ) (todo : List ℕ) (p : Pool) → Pending (c ∷ todo) p → Pending todo (reclaim c p)
unfolding reclaim free_conn
reclaim-Pending c todo p pend a =
    ground (arith, pend a, occ_cons a c todo, occ-erase a c p.recy_conn_set)

-- From the round `n` on the clock shows at least `t`; before, it may show anything.
recy_loop-Done :
    (fuel : ℕ) (clock : ℕ → ℕ) (i n t : ℕ) (todo : List ℕ) (p : Pool)
    → ((j : ℕ) → n ≤ j → t ≤ clock j)
    → DueBy t todo p
    → Pending todo p
    → Inv p
    → n + length todo ≤ i + fuel
    → length todo ≤ fuel
    → Done todo p (recy_loop fuel clock i todo p)
unfolding recy_loop recy_round
recy_loop-Done fuel clock i n t [] p late due pend v enough h =
    rw (recy_loop_nil fuel clock i p)
      (record { empty = refl; inv = v; freed = omega arith; left = omega arith })
recy_loop-Done zero clock i n t (c ∷ todo) p late due pend v enough h = absurd (omega arith)
recy_loop-Done (suc fuel) clock i n t (c ∷ todo) p late (d, due) pend v enough h =
    elim (Bool-cases (is_over (clock i) c p)) [
      | inl over ↦
          let there : 0 < occ c p.recy_conn_set = ground (arith, pend c, occ_cons c c todo) in
          let (freed, left) = reclaim-counts c p v there in
          let rest =
            recy_loop-Done fuel clock (i + 1) n t todo (reclaim c p) late
              (DueBy-reclaim t c todo p due) (reclaim-Pending c todo p pend)
              (reclaim-Inv c p v there) (omega arith) (omega arith) in
          rw over (record {
            empty = rest.empty;
            inv = rest.inv;
            freed = omega (arith, rest.freed, freed);
            left = omega (arith, rest.left, left);
          })
      | inr not_yet ↦
          let early : ¬ (n ≤ i) = λ q. ground (arith, late i q, is_over-deadline (clock i) c p) in
          rw not_yet (
            recy_loop-Done fuel clock (i + 1) n t (c ∷ todo) p late (d, due) pend v
              (omega (arith, early)) (omega (arith, early)))
    ]

-- If the clock reaches every deadline of the set, a pass over it ends, after at most as many rounds
-- as that takes and one for each connection: all of them are free then, and the counters are right.
pub recy_loop_ends :
    (clock : ℕ → ℕ) (n t : ℕ) (p : Pool)
    → ((j : ℕ) → n ≤ j → t ≤ clock j)
    → DueBy t p.recy_conn_set p
    → Inv p
    → Done p.recy_conn_set p (recy_loop (n + length p.recy_conn_set) clock 0 p.recy_conn_set p)
recy_loop_ends clock n t p late due v =
    recy_loop-Done (n + length p.recy_conn_set) clock 0 n t p.recy_conn_set p late due
      (λ a. omega arith) v (omega arith) (omega arith)
