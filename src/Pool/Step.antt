-- ===== src/Pool/Step.antt =====
-- The connection pool of net/mgx_socket_conn.cpp under any order of calls: the event loop opens and
-- closes connections, the timers and recv hand them to delayed recovery, and the recovery thread
-- takes them back. A call is one step, as if it held the mutex of all that it changes.
use my_gx.Base.{
  ℕ, zero, suc, ◌+◌, ◌≤◌, ◌<◌, [], ◌∷◌, ◌++◌, true, some, ltb, if◌then◌else◌, ◌≡◌, refl, sym, ap,
  subst, ◌∙◌, arith, length, length-append,
}
use mathlib.Core.Option.{some-injective}
use my_gx.Conn.{get_one_to_use}
use my_gx.Pool.{
  Pool, store, new_conn, fill_pool, conn_pool_init, get_conn, insert_recy_conn_queue, close_conn,
  reclaim, is_over, blank,
}
use my_gx.Pool.Inv.{
  Inv, InUse, Recyclable, Opened, occ, occ-append, occ_one, occ_nil, get_conn-Opened,
  insert_recy-Inv, close_conn-Inv, reclaim-Inv,
}

pub data Step (p q : Pool) : Type 0 where
  opens : (now fd c : ℕ) → get_conn now fd p ≡ some (c, q) → Step p q
  recycles : (now c : ℕ) → Recyclable c p → q ≡ insert_recy_conn_queue now c p → Step p q
  closes : (c : ℕ) → InUse c p → q ≡ close_conn c p → Step p q
  reclaims :
      (now c : ℕ) → 0 < occ c p.recy_conn_set → is_over now c p ≡ true → q ≡ reclaim c p → Step p q

pub data Reach (p : Pool) : Pool → Type 0 where
  here : Reach p p
  next : {q r : Pool} → Reach p q → Step q r → Reach p r

pub Opened-Inv :
    (now fd c : ℕ) (p q : Pool) → Inv p → get_conn now fd p ≡ some (c, q) → Opened c p q
Opened-Inv now fd c p q v e =
    let (c', q', e', o) = get_conn-Opened now fd p v in
    subst (λ r. Opened r.0 p r.1) (some-injective _ _ (sym e' ∙ e)) o

pub Step-Inv : (p q : Pool) → Step p q → Inv p → Inv q
Step-Inv p q (opens now fd c e) v = (Opened-Inv now fd c p q v e).inv
Step-Inv p q (recycles now c u e) v = rw e (insert_recy-Inv now c p v u)
Step-Inv p q (closes c u e) v = rw e (close_conn-Inv c p v u)
Step-Inv p q (reclaims now c h _ e) v = rw e (reclaim-Inv c p v h)

-- However the calls interleave, the counters count the queues, and no connection is idle twice.
pub Reach-Inv : (p q : Pool) → Reach p q → Inv p → Inv q
Reach-Inv p q here v = v
Reach-Inv p q (next {q = m} r st) v = Step-Inv m q st (Reach-Inv p m r v)

-- Before any connection was opened: every connection made is free.
pub record AllFree (p : Pool) : Type 0 where
  pub same : p.pconns_free_queue ≡ p.pconns_queue
  pub all_made : length p.pconns_queue ≡ p.next
  pub no_recy : p.recy_conn_set ≡ []
  pub recy_count : p.total_recy_conns_cnt ≡ 0
  pub once : (a : ℕ) → occ a p.pconns_queue ≤ (if ltb a p.next then 1 else 0)

fill_pool-AllFree :
    (left now : ℕ) (p : Pool)
    → AllFree p
    → AllFree (fill_pool left now p) × ((fill_pool left now p).next ≡ left + p.next)
unfolding fill_pool new_conn
fill_pool-AllFree zero now p v = (v, omega arith)
fill_pool-AllFree (suc left) now p v =
    let p' = record p {
      conn = store p.next (get_one_to_use now blank) p.conn;
      next = p.next + 1;
      pconns_queue = p.pconns_queue ++ p.next ∷ [];
      pconns_free_queue = p.pconns_free_queue ++ p.next ∷ [];
    } in
    let (rest, count) = fill_pool-AllFree left now p' (record {
      same = ap (λ l. l ++ p.next ∷ []) v.same;
      all_made = omega (arith, v.all_made, length-append p.pconns_queue (p.next ∷ []));
      no_recy = v.no_recy;
      recy_count = v.recy_count;
      once = λ a.
          ground (arith, v.once a, occ-append a p.pconns_queue (p.next ∷ []), occ_one a p.next);
    }) in
    (rest, omega (arith, count))

-- conn_pool_init makes as many free connections as it is asked for, and a pool whose counters are
-- right.
pub conn_pool_init-Inv :
    (n now : ℕ) (p : Pool)
    → AllFree p
    → p.next ≡ 0
    → Inv (conn_pool_init n now p) × ((conn_pool_init n now p).free_conns_cnt ≡ n)
unfolding conn_pool_init
conn_pool_init-Inv n now p v e =
    let (f, count) = fill_pool-AllFree n now p v in
    (
      record {
        free_count = omega (arith, f.all_made, ap length f.same, count);
        recy_count = f.recy_count ∙ sym (ap length f.no_recy);
        total_count = omega (arith, f.all_made, count);
        all_made = f.all_made;
        once = λ a. ground (arith, f.once a, ap (occ a) f.same, ap (occ a) f.no_recy, occ_nil a);
      },
      refl,
    )
