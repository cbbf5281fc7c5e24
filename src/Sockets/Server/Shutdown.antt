-- ===== src/Sockets/Server/Shutdown.antt =====
-- server.c: `main`, from its arguments to the wait for the threads of the clients.
use osa_sp.Base.{
  ℕ, zero, suc, ◌≡◌, inl, inr, refl, Bool, true, false, not, ◌&&◌, ◌||◌, Bool-cases, Option, none,
  some, List, [], ◌∷◌, ◌++◌, ltb, leb, if◌then◌else◌, until_newline, codes, arith,
}
use osa_sp.Sockets.Text.{same_text, trim}

-- `port > 0 && port <= 65535`, `port` the number that `atoi` reads, or 0 in place of one below it.
abbrev pub port_ok : ℕ → Bool
port_ok port = leb 1 port && leb port 65535

-- What `main` asks for before it serves; each call that fails makes it return 1.
pub record Setup : Type 0 where
  pub argc_ok : Bool
  pub root : Option (List ℕ)
  pub root_is_folder : Bool
  pub port : ℕ
  pub socket_ok : Bool
  pub bind_ok : Bool
  pub listen_ok : Bool

-- The root to serve; `none` is a return of 1.
unfoldable pub set_up : Setup → Option (List ℕ)
set_up s =
    if s.argc_ok
      && (s.root_is_folder && (port_ok s.port && (s.socket_ok && (s.bind_ok && s.listen_ok))))
    then s.root
    else none

-- What `accept` and the start of a thread give, when the listening socket is ready.
pub data Accepted : Type 0 where
  nobody accept_failed no_memory no_thread thread : Accepted

-- What the console gives: nothing, the end of the input, or a line.
pub data Typed : Type 0 where
  silent closed : Typed
  line : List ℕ → Typed

-- A return of `select`, with the value of `server_running` once the signals until the next test of it
-- are handled.
pub data Activity : Type 0 where
  select_failed : Activity
  interrupted : Bool → Activity
  ready : Bool → Accepted → Typed → Activity

-- `server_running` and the threads started.
pub record Loop : Type 0 where
  pub running : Bool
  pub started : ℕ

abbrev pub loop : Bool → ℕ → Loop
loop running started = record { running = running; started = started }

unfoldable pub console : Bool → Typed → Bool
console running silent = running
console running closed = false
console running (line typed) =
    if same_text (trim (until_newline typed)) (codes "Q") then false else running

-- A round of the loop. A failure on the way of a client goes on to the next round, past the console.
unfoldable pub main_round : ℕ → Activity → Loop
main_round started select_failed = loop false started
main_round started (interrupted running) = loop running started
main_round started (ready running nobody typed) = loop (console running typed) started
main_round started (ready running accept_failed typed) = loop running started
main_round started (ready running no_memory typed) = loop running started
main_round started (ready running no_thread typed) = loop (console running typed) started
main_round started (ready running thread typed) = loop (console running typed) (suc started)

unfoldable pub main_loop : ℕ → List Activity → Loop
main_loop started [] = loop true started
main_loop started (a ∷ later) =
    let next = main_round started a in
    let rest = main_loop next.started later in if next.running then rest else next

-- A return of `pthread_cond_timedwait`: whether it timed out, and the value of `active_threads_count`.
pub record Wake : Type 0 where
  pub timed_out : Bool
  pub left : ℕ

-- How the wait ends: the returns of the condition variable it took, and the threads it left behind.
pub record Waited : Type 0 where
  pub waits : ℕ
  pub behind : ℕ

-- The loop that waits, with `active` threads, on the returns to come; `none` when these do not do.
unfoldable pub wait_threads : Bool → ℕ → ℕ → List Wake → Option Waited
wait_threads running waits zero wakes = some (record { waits = waits; behind = 0 })
wait_threads running waits (suc active) [] = none
wait_threads running waits (suc active) (w ∷ wakes) =
    let rest = wait_threads running (suc waits) w.left wakes in
    if w.timed_out || (not running && ltb 0 w.left)
    then some (record { waits = suc waits; behind = w.left })
    else rest

-- A line `Q` at the console ends the loop, whatever came before, in a round in which no client's
-- arrival fails: later rounds are not run.
pub main_loop-stops :
    (before after : List Activity) (started : ℕ) (running : Bool) (typed : List ℕ)
    → same_text (trim (until_newline typed)) (codes "Q") ≡ true
    → (main_loop started (before ++ ready running nobody (line typed) ∷ after)).running ≡ false
unfolding main_loop main_round console
main_loop-stops [] after started running typed q = rw q refl
main_loop-stops (a ∷ before) after started running typed q =
    elim (Bool-cases (main_round started a).running) [
      | inl e ↦ rw e (main_loop-stops before after (main_round started a).started running typed q)
      | inr e ↦ rw e e
    ]

-- With `server_running` at 0 the wait takes one return of the condition variable at most, and leaves
-- behind the threads that are active then: a client that goes first makes `main` return with the
-- others still served.
pub wait_threads-once :
    (active : ℕ) (w : Wake) (wakes : List Wake)
    → wait_threads false 0 (suc active) (w ∷ wakes) ≡ some (record { waits = 1; behind = w.left })
unfolding wait_threads
wait_threads-once active w wakes = once w.timed_out w.left
  where
    once :
        (timed_out : Bool) (left : ℕ)
        → wait_threads false 0 (suc active) (record { timed_out = timed_out; left = left } ∷ wakes)
          ≡ some (record { waits = 1; behind = left })
    once true left = refl
    once false zero = refl
    once false (suc left) = ground arith
