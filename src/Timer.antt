-- ===== src/Timer.antt =====
-- The heartbeat timers of net/mgx_socket_time.cpp. m_timer_queue is a multimap from the time at which
-- a timer is due; its entries are listed in its order. Each function runs under m_timer_que_mutex,
-- except delete_from_timer_queue, which the code runs without it.
pub mod Order
pub mod Over
mod Examples
use my_gx.Base.{
  ℕ, zero, suc, ◌+◌, ◌-◌, List, [], ◌∷◌, Bool, true, false, Option, none, some, ltb, leb, ◌==◌,
  ◌||◌, if◌then◌else◌,
}

-- The part of a mgx_msg_hdr_t that a timer uses.
pub record Timer : Type 0 where
  pub pconn : ℕ
  pub cur_seq : ℕ

pub record TimerQueue : Type 0 where
  pub entries : List (ℕ × Timer)
  pub size : ℕ
  pub head_time : ℕ

-- `emplace`: behind the entries whose key is not greater.
pub emplace : ℕ → Timer → List (ℕ × Timer) → List (ℕ × Timer)
emplace k t [] = (k, t) ∷ []
emplace k t ((j, u) ∷ q) = if leb j k then (j, u) ∷ emplace k t q else (k, t) ∷ (j, u) ∷ q

-- The key of `begin()`, which the code reads of a queue that is not empty only; `other` if it is.
unfoldable pub earliest : List (ℕ × Timer) → ℕ → ℕ
earliest [] other = other
earliest ((k, t) ∷ q) other = k

pub get_earliest_time : TimerQueue → ℕ
unfolding earliest
get_earliest_time q = earliest q.entries q.head_time

-- `m_timer_que_head_time = get_earliest_time()`
pub update_head : TimerQueue → TimerQueue
unfolding get_earliest_time
update_head q = record q { head_time = get_earliest_time q }

pub enqueue : ℕ → Timer → TimerQueue → TimerQueue
unfolding emplace
enqueue k t q = record q { entries = emplace k t q.entries; size = q.size + 1 }

-- add_to_timer_queue at the time `now`, with m_heart_wait_time `wait`, for a connection with its
-- current sequence number.
pub add_to_timer_queue : ℕ → ℕ → Timer → TimerQueue → TimerQueue
unfolding enqueue update_head
add_to_timer_queue now wait t q = update_head (enqueue (now + wait) t q)

-- The loop of delete_from_timer_queue: the entries without the first one for the connection, and
-- whether there was one.
pub erase_first : ℕ → List (ℕ × Timer) → List (ℕ × Timer) × Bool
erase_first c [] = ([], false)
erase_first c ((k, t) ∷ q) =
    let (q', found) = erase_first c q in if t.pconn == c then (q, true) else ((k, t) ∷ q', found)

pub delete_from_timer_queue : ℕ → TimerQueue → TimerQueue
unfolding erase_first update_head
delete_from_timer_queue c q =
    let (left, found) = erase_first c q.entries in
    let q' = record q { entries = left; size = if found then q.size - 1 else q.size } in
    if ltb 0 q'.size then update_head q' else q'

-- `erase(begin())`
pub erase_begin : List (ℕ × Timer) → List (ℕ × Timer)
erase_begin [] = []
erase_begin (e ∷ q) = q

pub begin_timer : List (ℕ × Timer) → Option Timer
begin_timer [] = none
begin_timer ((k, t) ∷ q) = some t

-- get_over_time_timer: `none` is nullptr. The timer that is due is taken off and put back with its
-- next time.
pub get_over_time_timer : ℕ → ℕ → TimerQueue → Option Timer × TimerQueue
unfolding get_earliest_time enqueue update_head erase_begin begin_timer
get_over_time_timer cur wait q =
    if q.size == 0 || ltb cur (get_earliest_time q)
    then (none, q)
    else elim (begin_timer q.entries) [
      | none ↦ (none, q)
      | some old ↦ (
        some old,
        update_head (
            enqueue (cur + wait) (record { pconn = old.pconn; cur_seq = old.cur_seq })
              (record q { entries = erase_begin q.entries; size = q.size - 1 })),
      )
    ]

-- `while ((pmsg_hdr = get_over_time_timer(cur_time))) que.push(pmsg_hdr);` with fuel; `none` means
-- that the fuel ran out.
pub over_time_timers : ℕ → ℕ → ℕ → TimerQueue → Option (List Timer × TimerQueue)
over_time_timers zero cur wait q = none
over_time_timers (suc fuel) cur wait q =
    let (t, q') = get_over_time_timer cur wait q in
    let rest = over_time_timers fuel cur wait q' in
    elim t [
      | none ↦ some ([], q')
      | some old ↦ elim rest [ none ↦ none | some (ts, q'') ↦ some (old ∷ ts, q'') ]
    ]
