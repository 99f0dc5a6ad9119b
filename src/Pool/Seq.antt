-- ===== src/Pool/Seq.antt =====
-- The sequence numbers of connections in net/mgx_socket_conn.cpp: what tells a message or a timer of
-- an earlier use of a connection from one of the present use.
use my_gx.Base.{
  ℕ, ◌+◌, ◌-◌, ◌%◌, ◌^◌, ◌≤◌, ◌<◌, List, [], ◌∷◌, not, some, ltb, ◌==◌, ◌&&◌, if◌then◌else◌, ◌≡◌,
  ◌≢◌, ap, subst, ◌∙◌, arith, ◌⊎◌, inl, inr, Bool-cases,
}
use mathlib.Core.Option.{some-injective}
use my_gx.Conn.{next_seq, get_one_to_use, put_one_to_free}
use my_gx.Pool.{
  Pool, new_conn, reuse_conn, get_conn, free_conn, contains, close_fd, insert_recy_conn_queue,
  close_conn, erase, reclaim,
}
use my_gx.Pool.Inv.{Inv, InUse, idle-insert_recy, idle-close_conn, idle-reclaim}
use my_gx.Pool.Step.{
  Step, Reach, opens, recycles, closes, reclaims, here, next, Opened-Inv, Reach-Inv,
}

abbrev seq_of : ℕ → Pool → ℕ
seq_of a p = (p.conn a).m_cur_seq

seq-free_conn :
    (a c : ℕ) (p : Pool)
    → seq_of a (free_conn c p) ≡ (if a == c then next_seq (seq_of a p) else seq_of a p)
unfolding free_conn put_one_to_free
seq-free_conn a c p = ground arith

seq-close_conn :
    (a c : ℕ) (p : Pool)
    → seq_of a (close_conn c p) ≡ (if a == c then next_seq (seq_of a p) else seq_of a p)
unfolding close_conn close_fd
seq-close_conn a c p = seq-free_conn a c (record p { closed = (p.conn c).fd ∷ p.closed })

seq-reclaim :
    (a c : ℕ) (p : Pool)
    → seq_of a (reclaim c p) ≡ (if a == c then next_seq (seq_of a p) else seq_of a p)
unfolding reclaim
seq-reclaim a c p = seq-free_conn a c (record p {
  total_recy_conns_cnt = p.total_recy_conns_cnt - 1;
  recy_conn_set = erase c p.recy_conn_set;
})

seq-insert_recy :
    (now a c : ℕ) (p : Pool)
    → seq_of a (insert_recy_conn_queue now c p)
      ≡ (if a == c && not (contains c p.recy_conn_set) then next_seq (seq_of a p) else seq_of a p)
unfolding insert_recy_conn_queue close_fd
seq-insert_recy now a c p = ground arith

-- Handing out a connection gives it the next number, and leaves the others alone.
abbrev Bumped : ℕ → Pool → ℕ × Pool → Type 0
Bumped a p (c, q) = seq_of a q ≡ (if a == c then next_seq (seq_of a p) else seq_of a p)

reuse_conn-Bumped :
    (now fd a : ℕ) (l : List ℕ) (p : Pool) (r : ℕ × Pool)
    → reuse_conn now fd l p ≡ some r
    → Bumped a p r
unfolding reuse_conn get_one_to_use
reuse_conn-Bumped now fd a [] p r e = cc
reuse_conn-Bumped now fd a (d ∷ rest) p r e =
    subst (Bumped a p) (some-injective _ _ e) (ground arith)

-- Of connections that were made before.
get_conn-Bumped :
    (now fd a : ℕ) (p : Pool) (r : ℕ × Pool)
    → a < p.next
    → get_conn now fd p ≡ some r
    → Bumped a p r
unfolding get_conn new_conn
get_conn-Bumped now fd a p r made e = elim (Bool-cases (ltb 0 p.free_conns_cnt)) [
  | inl free ↦ reuse_conn-Bumped now fd a p.pconns_free_queue p r (rw free at e)
  | inr full ↦ subst (Bumped a p) (some-injective _ _ (rw full at e)) (ground arith)
]

reuse_conn-next :
    (now fd : ℕ) (l : List ℕ) (p : Pool) (r : ℕ × Pool)
    → reuse_conn now fd l p ≡ some r
    → p.next ≤ r.1.next
unfolding reuse_conn
reuse_conn-next now fd [] p r e = cc
reuse_conn-next now fd (d ∷ rest) p r e =
    subst (λ (t : ℕ × Pool). p.next ≤ t.1.next) (some-injective _ _ e) (omega arith)

get_conn-next :
    (now fd : ℕ) (p : Pool) (r : ℕ × Pool) → get_conn now fd p ≡ some r → p.next ≤ r.1.next
unfolding get_conn new_conn
get_conn-next now fd p r e = elim (Bool-cases (ltb 0 p.free_conns_cnt)) [
  | inl free ↦ reuse_conn-next now fd p.pconns_free_queue p r (rw free at e)
  | inr full ↦
      subst (λ (t : ℕ × Pool). p.next ≤ t.1.next) (some-injective _ _ (rw full at e)) (omega arith)
]

-- 1 for a step that gives the connection another number.
bumps : ℕ → (p : Pool) {q : Pool} → Step p q → ℕ
bumps a p (opens now fd c e) = if a == c then 1 else 0
bumps a p (recycles now c u e) = if a == c && not (contains c p.recy_conn_set) then 1 else 0
bumps a p (closes c u e) = if a == c then 1 else 0
bumps a p (reclaims now c h o e) = if a == c then 1 else 0

Step-seq :
    (a : ℕ) (p q : Pool) (st : Step p q)
    → a < p.next
    → seq_of a p < 2 ^ 64
    → seq_of a q ≡ (seq_of a p + bumps a p st) % 2 ^ 64
unfolding bumps
Step-seq a p q (opens now fd c e) made h = ground (arith, get_conn-Bumped now fd a p (c, q) made e)
Step-seq a p q (recycles now c u e) made h =
    ap (seq_of a) e ∙ ground (arith, seq-insert_recy now a c p)
Step-seq a p q (closes c u e) made h = ap (seq_of a) e ∙ ground (arith, seq-close_conn a c p)
Step-seq a p q (reclaims now c _ _ e) made h = ap (seq_of a) e ∙ ground (arith, seq-reclaim a c p)

next-give_back :
    (now c : ℕ) (p : Pool)
    → ((insert_recy_conn_queue now c p).next ≡ p.next)
      × ((close_conn c p).next ≡ p.next)
      × ((reclaim c p).next ≡ p.next)
unfolding insert_recy_conn_queue close_conn reclaim close_fd free_conn
next-give_back now c p = ground arith

Step-next : (p q : Pool) → Step p q → p.next ≤ q.next
Step-next p q (opens now fd c e) = get_conn-next now fd p (c, q) e
Step-next p q (recycles now c u e) = omega (arith, ap (λ r. r.next) e, (next-give_back now c p).0)
Step-next p q (closes c u e) = omega (arith, ap (λ r. r.next) e, (next-give_back 0 c p).1)
Step-next p q (reclaims now c h _ e) = omega (arith, ap (λ r. r.next) e, (next-give_back 0 c p).2)

-- A step after which a connection is no longer in use gives it another number.
Step-leaves :
    (a : ℕ) (p q : Pool) (st : Step p q) → Inv p → InUse a p → ¬ InUse a q → bumps a p st ≡ 1
unfolding bumps
Step-leaves a p q (opens now fd c e) v u out =
    absurd (out ((Opened-Inv now fd c p q v e).others a u))
Step-leaves a p q (recycles now c u' e) v u out =
    elim (Bool-cases (a == c && not (contains c p.recy_conn_set))) [
      | inl same ↦ rw same
      | inr other ↦ absurd (
          out (
            rw e (record {
              made = omega (arith, u.made, (next-give_back now c p).0);
              busy = ground (arith, u.busy, idle-insert_recy now a c p);
            })))
    ]
Step-leaves a p q (closes c u' e) v u out = elim (Bool-cases (a == c)) [
  | inl same ↦ rw same
  | inr other ↦ absurd (
      out (
        rw e (record {
          made = omega (arith, u.made, (next-give_back 0 c p).1);
          busy = ground (arith, u.busy, idle-close_conn a c p);
        })))
]
Step-leaves a p q (reclaims now c h _ e) v u out = absurd (
    out (
      rw e (record {
        made = omega (arith, u.made, (next-give_back 0 c p).2);
        busy = omega (arith, u.busy, idle-reclaim a c p h);
      })))

-- How many steps of a run gave the connection another number, and how many steps there were.
total_bumps : ℕ → {p q : Pool} → Reach p q → ℕ
total_bumps a here = 0
total_bumps a (next {q = m} r st) = total_bumps a r + bumps a m st

unfoldable pub steps : {p q : Pool} → Reach p q → ℕ
steps here = 0
steps (next r st) = steps r + 1

-- The connection was given back somewhere in the run: after some step it was no longer in use.
abbrev pub GivenBack : ℕ → {p q : Pool} → Reach p q → Type 0
GivenBack a here = ⊥
GivenBack a (next {q = m} {r = n} r st) = GivenBack a r ⊎ (InUse a m × (¬ InUse a n))

bumps-le : (a : ℕ) (p q : Pool) (st : Step p q) → bumps a p st ≤ 1
unfolding bumps
bumps-le a p q (opens now fd c e) = ground arith
bumps-le a p q (recycles now c u e) = ground arith
bumps-le a p q (closes c u e) = ground arith
bumps-le a p q (reclaims now c h o e) = ground arith

Reach-seq :
    (a : ℕ) (p q : Pool) (r : Reach p q)
    → a < p.next
    → seq_of a p < 2 ^ 64
    → (seq_of a q ≡ (seq_of a p + total_bumps a r) % 2 ^ 64)
      × (total_bumps a r ≤ steps r)
      × (a < q.next)
unfolding total_bumps steps
Reach-seq a p q here made h = (omega arith, omega arith, made)
Reach-seq a p q (next {q = m} r st) made h =
    let (eq, le, made') = Reach-seq a p m r made h in
    let step = Step-seq a m q st made' (omega (arith, eq)) in
    (
      omega (arith, eq, step),
      omega (arith, le, bumps-le a m q st),
      omega (arith, made', Step-next m q st),
    )

GivenBack-bumps : (a : ℕ) (p q : Pool) (r : Reach p q) → Inv p → GivenBack a r → 0 < total_bumps a r
unfolding total_bumps
GivenBack-bumps a p q here v g = absurd g
GivenBack-bumps a p q (next {q = m} r st) v (inl g) = omega (arith, GivenBack-bumps a p m r v g)
GivenBack-bumps a p q (next {q = m} r st) v (inr (u, out)) =
    omega (arith, Step-leaves a m q st (Reach-Inv p m r v) u out)

-- Once a connection was given back, its sequence number differs from the one before, in the run of
-- fewer than 2 ^ 64 pool calls: what was stamped in an earlier use is not taken for the present one.
pub stale_seq :
    (a : ℕ) (p q : Pool) (r : Reach p q)
    → Inv p
    → a < p.next
    → (p.conn a).m_cur_seq < 2 ^ 64
    → steps r < 2 ^ 64
    → GivenBack a r
    → (q.conn a).m_cur_seq ≢ (p.conn a).m_cur_seq
stale_seq a p q r v made h short g e =
    let (eq, le, _) = Reach-seq a p q r made h in
    omega (arith, eq, le, GivenBack-bumps a p q r v g, e)
