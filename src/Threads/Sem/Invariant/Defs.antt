-- ===== src/Threads/Sem/Invariant/Defs.antt =====
-- The invariant of lab 5.1.
use osa_sp.Base.{
  ℕ, ◌+◌, ◌≡◌, ◌⊎◌, refl, ap, Bool, true, Option, none, some, List, [], ◌∷◌, ◌++◌, ℤ, pos,
}
use osa_sp.Threads.Message.{Message, calculate_hash}
use osa_sp.Threads.Ring.{Ring}
use osa_sp.Threads.Ring.Window.{contents, IsValid}
use osa_sp.Threads.Ring.Fifo.{messages}
use osa_sp.Threads.Sem.Producer.{Log, World, ProducerPc}
use osa_sp.Threads.Sem.Consumer.{ConsumerPc}

-- The stored hash is the computed one.
abbrev pub IsStamped : Message → Type 0
IsStamped m = m.hash ≡ calculate_hash (some m)

abbrev pub AreStamped : List Message → Type 0
AreStamped [] = Unit
AreStamped (m ∷ ms) = IsStamped m × AreStamped ms

abbrev pub AllTrue : List Bool → Type 0
AllTrue [] = Unit
AllTrue (b ∷ bs) = (b ≡ true) × AllTrue bs

-- No resize is pending, or one to five slots more than there are.
abbrev pub Grows : ℤ → ℤ → ℕ → Type 0
Grows request target capacity =
    (request ≡ pos 0) ⊎ ((request ≡ pos 1) × (target ≡ pos (capacity + 5)))

-- The ring is valid, the totals and the log account for every message, every message in the queue and
-- every check so far is good, and a pending resize is one that grows.
pub record Accounts (ring : Ring Message) (added extracted : ℕ) (log : Log) (request target : ℤ)
    : Type 0 where
  pub valid : IsValid ring
  pub totals : added ≡ extracted + ring.count
  pub order : log.added ≡ log.extracted ++ messages (contents ring)
  pub stamped : AreStamped (messages (contents ring))
  pub checked : AllTrue log.checks
  pub grows : Grows request target ring.capacity

abbrev pub WorldInv : World → Type 0
WorldInv w =
    Accounts w.queue.ring w.queue.total_added w.queue.total_extracted w.log w.queue.resize_request
      w.queue.new_capacity_request

-- A message that a producer holds is stamped.
abbrev pub ProducerInv : ProducerPc → Type 0
ProducerInv (ProducerPc.holding m) = IsStamped m
ProducerInv _ = Unit

pub messages-append :
    (xs : List (Option Message)) (m : Message)
    → messages (xs ++ (some m ∷ [])) ≡ messages xs ++ (m ∷ [])
messages-append [] m = refl
messages-append (none ∷ xs) m = messages-append xs m
messages-append (some x ∷ xs) m = ap (λ l. x ∷ l) (messages-append xs m)

pub AreStamped-append :
    (ms : List Message) (m : Message) → AreStamped ms → IsStamped m → AreStamped (ms ++ (m ∷ []))
AreStamped-append [] m a b = (b, tt)
AreStamped-append (x ∷ ms) m a b = (a.0, AreStamped-append ms m a.1 b)

-- A message that a consumer has taken is stamped; it never takes an empty slot.
abbrev pub ConsumerInv : ConsumerPc → Type 0
ConsumerInv (ConsumerPc.posting none) = ⊥
ConsumerInv (ConsumerPc.posting (some m)) = IsStamped m
ConsumerInv _ = Unit

pub AllTrue-append : (bs : List Bool) (b : Bool) → AllTrue bs → b ≡ true → AllTrue (bs ++ (b ∷ []))
AllTrue-append [] b h e = (e, tt)
AllTrue-append (x ∷ bs) b h e = (h.0, AllTrue-append bs b h.1 e)
