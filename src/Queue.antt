-- ===== src/Queue.antt =====
-- src/common/thread_safe_queue.h: the bounded queue between the threads. Each operation holds the
-- mutex throughout, so a run of the program is a sequence of whole operations; a `wait` whose
-- condition does not hold yet is the outcome `waits`, and takes no effect.
pub mod Laws
pub mod History
pub mod Ready
mod Tests
use rtstream.Prelude.{
  ℕ, Bool, true, false, ◌||◌, not, List, [], ◌∷◌, ◌++◌, length, ltb, leb, is_empty, if◌then◌else◌,
}
use rtstream.Stats.{bump}

pub record Queue {ℓ} (A : Type ℓ) : Type ℓ where
  pub items : List A
  pub capacity : ℕ
  pub drop_old : Bool
  pub is_closed : Bool
  pub drop_count : ℕ

-- `fault` is `pop_front` of an empty deque, which C++ leaves undefined.
pub data Pushed {ℓ} (A : Type ℓ) : Type ℓ where
  pushed : Queue A → Pushed A
  refused waits fault : Pushed A

-- `timeout` stands for both ways in which `pop` and `pop_for` return false.
pub data Popped {ℓ} (A : Type ℓ) : Type ℓ where
  popped : A → Queue A → Popped A
  nothing waits : Popped A

module _ {ℓ} {A : Type ℓ} where
  pub new : ℕ → Bool → Queue A
  new capacity drop_old = record {
    items = [];
    capacity = capacity;
    drop_old = drop_old;
    is_closed = false;
    drop_count = 0;
  }

  -- `q_.push_back(v)` behind the items that are left.
  put : Queue A → List A → A → Queue A
  put q items v = record q { items = items ++ v ∷ [] }

  -- `dropped_++; q_.pop_front(); q_.push_back(v)`
  replace_front : Queue A → List A → A → Pushed A
  unfolding put
  replace_front q [] v = Pushed.fault
  replace_front q (x ∷ items) v =
      Pushed.pushed (record (put q items v) { drop_count = bump q.drop_count 1 })

  unfoldable pub try_push : Queue A → A → Pushed A
  unfolding replace_front put
  try_push q v =
      if q.is_closed
      then Pushed.refused
      else if leb q.capacity (length q.items)
      then replace_front q q.items v
      else Pushed.pushed (put q q.items v)

  -- The same behind the wait for room, which `drop_old_when_full` switches off.
  unfoldable pub push : Queue A → A → Pushed A
  unfolding try_push
  push q v =
      if q.is_closed || (q.drop_old || ltb (length q.items) q.capacity)
      then try_push q v
      else Pushed.waits

  take_front : Queue A → List A → Popped A
  take_front q [] = Popped.nothing
  take_front q (x ∷ items) = Popped.popped x (record q { items = items })

  unfoldable pub pop : Queue A → Popped A
  unfolding take_front
  pop q = if q.is_closed || not (is_empty q.items) then take_front q q.items else Popped.waits

  -- The outcome when the time is up.
  unfoldable pub pop_for : Queue A → Popped A
  unfolding take_front
  pop_for q = if q.is_closed || not (is_empty q.items) then take_front q q.items else Popped.nothing

  unfoldable pub close : Queue A → Queue A
  close q = record q { is_closed = true }
