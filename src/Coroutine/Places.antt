-- ===== src/Coroutine/Places.antt =====
-- Where a coroutine of misc/mgx_coroutine_scheduler.cpp stands, by its status.
use my_gx.Base.{
  ℕ, ◌+◌, ◌-◌, ◌≤◌, ◌<◌, List, [], ◌∷◌, ◌++◌, Option, none, some, leb, ◌==◌, ==_self, ==_ne,
  if◌then◌else◌, ◌≡◌, ◌≢◌, refl, sym, ap, ◌∙◌, subst, Bool-cases, inl, inr, arith,
}
use my_gx.Pool.Inv.{occ, occ_cons, occ-append, occ_one}
use my_gx.Coroutine.{
  Status, ready, waiting, sleeping, running, exited, Scheduler, set_status, emplace_sleeper,
  without,
}

abbrev pub is_ready : Option Status → ℕ
is_ready (some ready) = 1
is_ready (some waiting) = 0
is_ready (some sleeping) = 0
is_ready (some running) = 0
is_ready (some exited) = 0
is_ready none = 0

abbrev pub is_waiting : Option Status → ℕ
is_waiting (some ready) = 0
is_waiting (some waiting) = 1
is_waiting (some sleeping) = 0
is_waiting (some running) = 0
is_waiting (some exited) = 0
is_waiting none = 0

abbrev pub is_sleeping : Option Status → ℕ
is_sleeping (some ready) = 0
is_sleeping (some waiting) = 0
is_sleeping (some sleeping) = 1
is_sleeping (some running) = 0
is_sleeping (some exited) = 0
is_sleeping none = 0

-- The coroutines that sleep, in the order of their times.
unfoldable pub sleepers : List (ℕ × ℕ) → List ℕ
sleepers [] = []
sleepers ((k, co) ∷ q) = co ∷ sleepers q

-- A coroutine that is ready stands once in the ready list, one that sleeps once among the sleepers,
-- one that waits at most once in the interest list, and nowhere else; numbers above the count are of
-- no coroutine.
pub record Placed (s : Scheduler) : Type 0 where
  pub in_ready : (a : ℕ) → occ a s.m_co_ready_list ≡ is_ready (s.status a)
  pub in_sleep : (a : ℕ) → occ a (sleepers s.m_co_sleep_rbtree) ≡ is_sleeping (s.status a)
  pub in_watched : (a : ℕ) → occ a s.watched ≤ is_waiting (s.status a)
  pub fresh : (a : ℕ) → s.cnt < a → s.status a ≡ none

pub set_status_here :
    (co : ℕ) (st : Option Status) (f : ℕ → Option Status) → set_status co st f co ≡ st
unfolding set_status
set_status_here co st f = rw (==_self co) refl

pub set_status_away :
    (co a : ℕ) (st : Option Status) (f : ℕ → Option Status) → a ≢ co → set_status co st f a ≡ f a
unfolding set_status
set_status_away co a st f ne = rw (==_ne a co ne) refl

-- A place before and after the coroutine `co` has a new status: what is counted elsewhere stays.
module _ (f : Option Status → ℕ) (co : ℕ) (old : ℕ → Option Status) (st : Option Status)
    (before after : ℕ → ℕ) where
  pub placed :
      ((a : ℕ) → a ≢ co → after a ≡ before a)
      → after co ≡ f st
      → ((a : ℕ) → before a ≡ f (old a))
      → (a : ℕ) → after a ≡ f (set_status co st old a)
  placed others here all a = elim (Bool-cases (a == co)) [
    | inl same ↦
        let e : a ≡ co = ground arith in
        subst (λ a. after a ≡ f (set_status co st old a)) (sym e)
          (here ∙ sym (ap f (set_status_here co st old)))
    | inr other ↦
        let ne : a ≢ co = ground arith in
        others a ne ∙ all a ∙ sym (ap f (set_status_away co a st old ne))
  ]

  pub placed_le :
      ((a : ℕ) → a ≢ co → after a ≡ before a)
      → after co ≤ f st
      → ((a : ℕ) → before a ≤ f (old a))
      → (a : ℕ) → after a ≤ f (set_status co st old a)
  placed_le others here all a = elim (Bool-cases (a == co)) [
    | inl same ↦
        let e : a ≡ co = ground arith in
        subst (λ a. after a ≤ f (set_status co st old a)) (sym e)
          (omega (arith, here, ap f (set_status_here co st old)))
    | inr other ↦
        let ne : a ≢ co = ground arith in
        omega (arith, others a ne, all a, ap f (set_status_away co a st old ne))
  ]

pub occ-snoc_here : (co : ℕ) (l : List ℕ) → occ co (l ++ (co ∷ [])) ≡ occ co l + 1
occ-snoc_here co l = ground (arith, ==_self co, occ-append co l (co ∷ []), occ_one co co)

pub occ-snoc_away : (co a : ℕ) (l : List ℕ) → a ≢ co → occ a (l ++ (co ∷ [])) ≡ occ a l
occ-snoc_away co a l ne = ground (arith, ==_ne a co ne, occ-append a l (co ∷ []), occ_one a co)

pub occ-cons_here : (co : ℕ) (l : List ℕ) → occ co (co ∷ l) ≡ occ co l + 1
occ-cons_here co l = ground (arith, ==_self co, occ_cons co co l)

pub occ-cons_away : (co a : ℕ) (l : List ℕ) → a ≢ co → occ a (co ∷ l) ≡ occ a l
occ-cons_away co a l ne = ground (arith, ==_ne a co ne, occ_cons a co l)

pub occ-emplace_sleeper :
    (a k co : ℕ) (q : List (ℕ × ℕ))
    → occ a (sleepers (emplace_sleeper k co q)) ≡ occ a (co ∷ sleepers q)
unfolding emplace_sleeper sleepers occ
occ-emplace_sleeper a k co [] = refl
occ-emplace_sleeper a k co ((j, d) ∷ q) = elim (Bool-cases (leb j k)) [
  | inl before ↦ rw before (ground (arith, occ-emplace_sleeper a k co q))
  | inr after ↦ rw after refl
]

pub occ-without :
    (a co : ℕ) (l : List ℕ) → occ a (without co l) ≡ occ a l - (if a == co then 1 else 0)
unfolding without occ
occ-without a co [] = omega arith
occ-without a co (d ∷ l) = ground (arith, occ-without a co l)
