-- ===== src/Threads/Cond/Invariant/Defs.antt =====
-- The invariant of lab 5.2, with a Boolean for the runs that ask for no smaller queue.
use osa_sp.Base.{
  ℕ, ◌+◌, ◌<◌, ◌≤◌, ◌≡◌, ◌⊎◌, inl, refl, Bool, true, false, Option, none, some, ◌++◌, pos,
}
use osa_sp.Threads.Ring.Window.{contents}
use osa_sp.Threads.Ring.Fifo.{messages}
use osa_sp.Threads.Ring.Resize.{contents-move_to, move_to_fields}
use osa_sp.Threads.Ring.Mended.{IsMendable, move_to-IsMendable, move_to_tail}
use osa_sp.Threads.Sem.Producer.{Log}
use osa_sp.Threads.Sem.Invariant.{AreStamped, AllTrue, Grows}
use osa_sp.Threads.Cond.{QueueCond, resize_cond_to}
use osa_sp.Threads.Cond.Producer.{CondWorld}

-- With no request for a smaller queue the tail stays inside the buffer.
abbrev pub Safe : Bool → QueueCond → Type 0
Safe true q =
    (q.ring.tail < q.ring.capacity) × Grows q.resize_request q.new_capacity_request q.ring.capacity
Safe false q = Unit

-- The ring can be mended, the totals and the log account for every message, every message in the queue
-- and every check so far is good, and no resize is in progress while the mutex is free.
pub record CondAccounts (grows : Bool) (q : QueueCond) (log : Log) : Type 0 where
  pub ring : IsMendable q.ring
  pub totals : q.total_added ≡ q.total_extracted + q.ring.count
  pub order : log.added ≡ log.extracted ++ messages (contents q.ring)
  pub stamped : AreStamped (messages (contents q.ring))
  pub checked : AllTrue log.checks
  pub idle : q.resize_in_progress ≡ false
  pub safe : Safe grows q

abbrev pub CondInv : Bool → CondWorld → Type 0
CondInv grows w = CondAccounts grows w.queue w.log

-- A step that ends in a good state.
abbrev pub GoesWell : {T : Type 0} → Bool → (T → Type 0) → Option (CondWorld × T) → Type 0
GoesWell {T} grows P outcome =
    (w : CondWorld) × (t : T) × (outcome ≡ some (w, t)) × CondInv grows w × P t

-- A step on the queue `q` either leaves the buffer with the tail just behind its end, which only runs
-- with requests for a smaller queue can do, or ends in a good state.
abbrev pub Ends : {T : Type 0} → Bool → QueueCond → (T → Type 0) → Option (CondWorld × T) → Type 0
Ends {T} grows q P outcome =
    ((grows ≡ false) × (q.ring.tail ≡ q.ring.capacity) × (outcome ≡ none))
    ⊎ GoesWell grows P outcome

pub Safe-cleared :
    (grows : Bool) (q : QueueCond) → Safe grows q → Safe grows (record q { resize_request = pos 0 })
Safe-cleared true q s = (s.0, inl refl)
Safe-cleared false q s = tt

pub CondAccounts-cleared :
    (grows : Bool) (q : QueueCond) (log : Log)
    → CondAccounts grows q log
    → CondAccounts grows (record q { resize_request = pos 0; resize_in_progress = false }) log
CondAccounts-cleared grows q log v = record {
  ring = v.ring;
  totals = v.totals;
  order = v.order;
  stamped = v.stamped;
  checked = v.checked;
  idle = refl;
  safe = cleared grows v.safe;
}
  where
    cleared :
        (grows : Bool)
        → Safe grows q
        → Safe grows (record q { resize_request = pos 0; resize_in_progress = false })
    cleared true s = (s.0, inl refl)
    cleared false s = tt

-- A resize to `n` slots, when the messages fit, and with one slot to spare in the runs that only grow.
abbrev pub Fits : Bool → QueueCond → ℕ → Type 0
Fits true q n = q.ring.count < n
Fits false q n = Unit

Safe-resized :
    (grows : Bool) (q : QueueCond) (n : ℕ)
    → Fits grows q n
    → Safe grows (record (resize_cond_to q n) { resize_request = pos 0 })
unfolding resize_cond_to
Safe-resized true q n f = (move_to_tail q.ring n f, inl refl)
Safe-resized false q n f = tt

pub resize_cond_to-CondAccounts :
    (grows : Bool) (q : QueueCond) (log : Log) (n : ℕ)
    → CondAccounts grows q log
    → q.ring.count ≤ n
    → 0 < n
    → Fits grows q n
    → CondAccounts grows (record (resize_cond_to q n) { resize_request = pos 0 }) log
unfolding resize_cond_to
resize_cond_to-CondAccounts grows q log n v room some_room fits = record {
  ring = move_to-IsMendable n v.ring room some_room;
  totals = rw ((move_to_fields q.ring n).1) v.totals;
  order = rw (contents-move_to q.ring n room) v.order;
  stamped = rw (contents-move_to q.ring n room) v.stamped;
  checked = v.checked;
  idle = refl;
  safe = Safe-resized grows q n fits;
}
