-- ===== src/InFlight.antt =====
-- src/storage-codec.hpp, class InFlightQueue: the frames sent to an encoder and not received yet. Its
-- ring of entries is a list, whose length no sum of indices takes past 2 ^ 64.
mod Places
pub mod Fifo
mod Tests
use obs_trigglow_dynamic_del.Prelude.{
  ℕ, zero, suc, ◌+◌, ◌-◌, ◌*◌, ◌%◌, max, Option, none, some, List, [], ◌∷◌, ◌++◌, ◌==◌, not,
  if◌then◌else◌, length, get_or, set, replicate,
}

pub record Entry (A : Type 0) : Type 0 where
  pub seq : ℕ
  pub submit_ns : ℕ
  pub value : A

pub record InFlightQueue (A : Type 0) : Type 0 where
  pub entries : List (Entry A)
  pub head : ℕ
  pub size : ℕ
  pub max_depth : ℕ

-- Match; `ok` has the entry that is popped.
pub data Match (A : Type 0) : Type 0 where
  ok : Entry A → Match A
  empty mismatch : Match A

-- `blank` is the entry `Entry{}`.
module _ {A : Type 0} (blank : Entry A) where
  unfoldable pub make : InFlightQueue A
  make = record { entries = []; head = 0; size = 0; max_depth = 0 }

  unfoldable pub entry_at : List (Entry A) → ℕ → ℕ → Entry A
  entry_at entries head i = get_or entries ((head + i) % length entries) blank

  -- The entries that ForEach comes to, `count` of them from the one at `i` on.
  unfoldable pub collect : List (Entry A) → ℕ → ℕ → ℕ → List (Entry A)
  unfolding entry_at
  collect entries head i zero = []
  collect entries head i (suc count) = entry_at entries head i ∷ collect entries head (suc i) count

  unfoldable pub contents : InFlightQueue A → List (Entry A)
  unfolding collect
  contents q = collect q.entries q.head 0 q.size

  -- Grow.
  unfoldable pub grow : InFlightQueue A → InFlightQueue A
  unfolding contents
  grow q = record q {
    entries = contents q ++ replicate (max 4 (2 * length q.entries) - q.size) blank;
    head = 0;
  }

  unfoldable pub put_last : Entry A → InFlightQueue A → InFlightQueue A
  put_last e q = record q {
    entries = set q.entries ((q.head + q.size) % length q.entries) e;
    size = q.size + 1;
    max_depth = max q.max_depth (q.size + 1);
  }

  -- Push.
  unfoldable pub push : Entry A → InFlightQueue A → InFlightQueue A
  unfolding grow put_last
  push e q = put_last e (if q.size == length q.entries then grow q else q)

  -- TakeFront.
  unfoldable pub take_front : InFlightQueue A → InFlightQueue A
  take_front q = record q {
    entries = set q.entries q.head blank;
    head = (q.head + 1) % length q.entries;
    size = q.size - 1;
  }

  -- Pop.
  unfoldable pub pop : ℕ → InFlightQueue A → Match A × InFlightQueue A
  unfolding take_front
  pop seq q =
      let front = get_or q.entries q.head blank in
      if q.size == 0
      then (empty, q)
      else if not (front.seq == seq)
      then (mismatch, q)
      else (ok front, take_front q)

  -- Clear, on fuel for each entry: the entries that are handed over, and the queue.
  unfoldable pub clear : ℕ → InFlightQueue A → List (Entry A) × InFlightQueue A
  unfolding take_front
  clear zero q = ([], q)
  clear (suc fuel) q =
      let rest = clear fuel (take_front q) in
      if q.size == 0 then ([], q) else (get_or q.entries q.head blank ∷ rest.0, rest.1)
