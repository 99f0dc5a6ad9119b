-- ===== src/Pool/Inv.antt =====
-- Who holds a connection of the pool in net/mgx_socket_conn.cpp: the free queue, the recovery set, or
-- the program.
use my_gx.Base.{
  ℕ, ◌+◌, ◌-◌, ◌≤◌, ◌<◌, List, [], ◌∷◌, ◌++◌, not, some, ltb, ◌==◌, ◌&&◌, if◌then◌else◌, ◌≡◌, refl,
  ap, arith, length, length-append, inl, inr, Bool-cases,
}
use my_gx.Pool.{
  Pool, reuse_conn, get_conn, free_conn, contains, close_fd, insert_recy_conn_queue, close_conn,
  erase, reclaim,
}

-- How often an address stands in a list.
unfoldable pub occ : ℕ → List ℕ → ℕ
occ a [] = 0
occ a (b ∷ l) = (if a == b then 1 else 0) + occ a l

pub occ_nil : (a : ℕ) → occ a [] ≡ 0
unfolding occ
occ_nil a = refl

pub occ_cons : (a b : ℕ) (l : List ℕ) → occ a (b ∷ l) ≡ (if a == b then 1 else 0) + occ a l
unfolding occ
occ_cons a b l = refl

pub occ-append : (a : ℕ) (xs ys : List ℕ) → occ a (xs ++ ys) ≡ occ a xs + occ a ys
unfolding occ
occ-append a [] ys = omega arith
occ-append a (x ∷ xs) ys = omega (arith, occ-append a xs ys)

pub occ_one : (a b : ℕ) → occ a (b ∷ []) ≡ (if a == b then 1 else 0)
unfolding occ
occ_one a b = ground arith

pub occ-erase : (a c : ℕ) (s : List ℕ) → occ a (erase c s) ≡ occ a s - (if a == c then 1 else 0)
unfolding occ erase
occ-erase a c [] = ground arith
occ-erase a c (d ∷ s) = ground (arith, occ-erase a c s)

pub length-erase : (c : ℕ) (s : List ℕ) → 0 < occ c s → length (erase c s) + 1 ≡ length s
unfolding occ erase
length-erase c [] h = absurd (omega arith)
length-erase c (d ∷ s) h = ground (arith, length-erase c s)

pub contains-occ : (c : ℕ) (s : List ℕ) → contains c s ≡ ltb 0 (occ c s)
unfolding contains occ
contains-occ c [] = ground arith
contains-occ c (d ∷ s) = ground (arith, contains-occ c s)

-- How often the pool holds a connection that is not in use.
abbrev pub idle : ℕ → Pool → ℕ
idle a p = occ a p.pconns_free_queue + occ a p.recy_conn_set

pub record Inv (p : Pool) : Type 0 where
  pub free_count : p.free_conns_cnt ≡ length p.pconns_free_queue
  pub recy_count : p.total_recy_conns_cnt ≡ length p.recy_conn_set
  pub total_count : p.total_conns_cnt ≡ length p.pconns_queue
  pub all_made : length p.pconns_queue ≡ p.next
  -- A connection is idle in one place at most, and only if it was made.
  pub once : (a : ℕ) → idle a p ≤ (if ltb a p.next then 1 else 0)

-- Made, and neither free nor in recovery.
pub record InUse (c : ℕ) (p : Pool) : Type 0 where
  pub made : c < p.next
  pub busy : idle c p ≡ 0

close_fd-Inv : (c : ℕ) (p : Pool) → Inv p → Inv (close_fd c p)
unfolding close_fd
close_fd-Inv c p v = record {
  free_count = v.free_count;
  recy_count = v.recy_count;
  total_count = v.total_count;
  all_made = v.all_made;
  once = v.once;
}

free_conn-Inv : (c : ℕ) (p : Pool) → Inv p → InUse c p → Inv (free_conn c p)
unfolding free_conn
free_conn-Inv c p v u = record {
  free_count = omega (arith, v.free_count, length-append p.pconns_free_queue (c ∷ []));
  recy_count = v.recy_count;
  total_count = v.total_count;
  all_made = v.all_made;
  once = λ a.
      ground
        (arith, v.once a, occ-append a p.pconns_free_queue (c ∷ []), occ_one a c, u.made, u.busy);
}

pub close_conn-Inv : (c : ℕ) (p : Pool) → Inv p → InUse c p → Inv (close_conn c p)
unfolding close_conn close_fd
close_conn-Inv c p v u =
    free_conn-Inv c (record p { closed = (p.conn c).fd ∷ p.closed })
      (record {
        free_count = v.free_count;
        recy_count = v.recy_count;
        total_count = v.total_count;
        all_made = v.all_made;
        once = v.once;
      })
      (record { made = u.made; busy = u.busy })

-- A connection whose descriptor is closed for delayed recovery is in use, or in recovery already.
pub record Recyclable (c : ℕ) (p : Pool) : Type 0 where
  pub made : c < p.next
  pub not_free : occ c p.pconns_free_queue ≡ 0

pub insert_recy-Inv :
    (now c : ℕ) (p : Pool) → Inv p → Recyclable c p → Inv (insert_recy_conn_queue now c p)
unfolding insert_recy_conn_queue occ
insert_recy-Inv now c p v u = elim (Bool-cases (contains c p.recy_conn_set)) [
  | inl old ↦ rw old (record {
    free_count = v.free_count;
    recy_count = v.recy_count;
    total_count = v.total_count;
    all_made = v.all_made;
    once = v.once;
  })
  | inr new ↦ rw new (record {
    free_count = v.free_count;
    recy_count = omega (arith, v.recy_count);
    total_count = v.total_count;
    all_made = v.all_made;
    once = λ a. ground (arith, v.once a, contains-occ c p.recy_conn_set, u.made, u.not_free);
  })
]

pub reclaim-Inv : (c : ℕ) (p : Pool) → Inv p → 0 < occ c p.recy_conn_set → Inv (reclaim c p)
unfolding reclaim
reclaim-Inv c p v h =
    let q = record p {
      total_recy_conns_cnt = p.total_recy_conns_cnt - 1;
      recy_conn_set = erase c p.recy_conn_set;
    } in
    free_conn-Inv c q
      (record {
        free_count = v.free_count;
        recy_count = omega (arith, v.recy_count, length-erase c p.recy_conn_set h);
        total_count = v.total_count;
        all_made = v.all_made;
        once = λ a. omega (arith, v.once a, occ-erase a c p.recy_conn_set);
      })
      (record {
        made = ground (arith, v.once c);
        busy = ground (arith, v.once c, occ-erase c c p.recy_conn_set);
      })

-- What each way of giving a connection back adds to the idle ones.
pub idle-free_conn :
    (a c : ℕ) (p : Pool) → idle a (free_conn c p) ≡ idle a p + (if a == c then 1 else 0)
unfolding free_conn
idle-free_conn a c p = omega (arith, occ-append a p.pconns_free_queue (c ∷ []), occ_one a c)

pub idle-close_conn :
    (a c : ℕ) (p : Pool) → idle a (close_conn c p) ≡ idle a p + (if a == c then 1 else 0)
unfolding close_conn close_fd
idle-close_conn a c p = idle-free_conn a c (record p { closed = (p.conn c).fd ∷ p.closed })

pub idle-insert_recy :
    (now a c : ℕ) (p : Pool)
    → idle a (insert_recy_conn_queue now c p)
      ≡ idle a p + (if a == c && not (contains c p.recy_conn_set) then 1 else 0)
unfolding insert_recy_conn_queue close_fd occ
idle-insert_recy now a c p = ground arith

pub idle-reclaim :
    (a c : ℕ) (p : Pool) → 0 < occ c p.recy_conn_set → idle a (reclaim c p) ≡ idle a p
unfolding reclaim
idle-reclaim a c p h = ground (
  arith,
  idle-free_conn a c (record p {
    total_recy_conns_cnt = p.total_recy_conns_cnt - 1;
    recy_conn_set = erase c p.recy_conn_set;
  }),
  occ-erase a c p.recy_conn_set,
)

-- A connection handed out: idle or not yet made before, in use after, and nothing else moved.
pub record Opened (c : ℕ) (p q : Pool) : Type 0 where
  pub inv : Inv q
  pub used : InUse c q
  pub was_idle : ¬ InUse c p
  pub others : (a : ℕ) → InUse a p → InUse a q

reuse_conn-Opened :
    (now fd : ℕ) (l : List ℕ) (p : Pool)
    → l ≡ p.pconns_free_queue
    → Inv p
    → 0 < p.free_conns_cnt
    → (c : ℕ) × (q : Pool) × (reuse_conn now fd l p ≡ some (c, q)) × Opened c p q
unfolding reuse_conn occ
reuse_conn-Opened now fd [] p e v h = absurd (omega (arith, v.free_count, ap length e))
reuse_conn-Opened now fd (c ∷ rest) p e v h = (
  c,
  _,
  refl,
  record {
    inv = record {
      free_count = omega (arith, v.free_count, ap length e);
      recy_count = v.recy_count;
      total_count = v.total_count;
      all_made = v.all_made;
      once = λ a. ground (arith, v.once a, ap (occ a) e);
    };
    used = record {
      made = ground (arith, v.once c, ap (occ c) e);
      busy = ground (arith, v.once c, ap (occ c) e);
    };
    was_idle = λ u. ground (arith, u.busy, ap (occ c) e);
    others = λ a u. record { made = u.made; busy = ground (arith, u.busy, ap (occ a) e) };
  },
)

-- With a free connection or without one, get_conn hands out one that nobody has.
pub get_conn-Opened :
    (now fd : ℕ) (p : Pool)
    → Inv p
    → (c : ℕ) × (q : Pool) × (get_conn now fd p ≡ some (c, q)) × Opened c p q
unfolding get_conn
get_conn-Opened now fd p v = elim (Bool-cases (ltb 0 p.free_conns_cnt)) [
  | inl free ↦ rw free (reuse_conn-Opened now fd p.pconns_free_queue p refl v (ground arith))
  | inr full ↦ rw full (
    p.next,
    _,
    refl,
    record {
      inv = record {
        free_count = v.free_count;
        recy_count = v.recy_count;
        total_count = omega (arith, v.total_count, length-append p.pconns_queue (p.next ∷ []));
        all_made = omega (arith, v.all_made, length-append p.pconns_queue (p.next ∷ []));
        once = λ a. ground (arith, v.once a);
      };
      used = record { made = omega arith; busy = ground (arith, v.once p.next) };
      was_idle = λ u. omega (arith, u.made);
      others = λ a u. record { made = omega (arith, u.made); busy = u.busy };
    },
  )
]
