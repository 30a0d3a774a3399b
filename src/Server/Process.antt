-- ===== src/Server/Process.antt =====
-- The process of src/server.cpp: `main`, its threads, and the flag `running` that they share with
-- the handler of SIGINT. A step of `main` goes from one access to what is shared to the next.
pub mod Refines
pub mod Joined
pub mod Winding
pub mod Ending
use client_server_signaling.Base.{
  ℕ, Bool, true, false, List, [], ◌∷◌, ◌++◌, ◌≡◌, ◌&&◌, if◌then◌else◌, ℤ, minus_one, int_eq,
}
use client_server_signaling.Fault.{ok}
use client_server_signaling.UserStore.{UserStore, empty}
use client_server_signaling.Server.Loop.{Round, signal_handler}
use client_server_signaling.Server.System.{Phase, ended, Thread, new_thread, turn}

-- Where `main` stands: before the test of its `while`; in `accept`; before the second test, with the
-- result of `accept`; before the start of a thread; in the loop that joins; or at its `return 0`.
pub data MainPhase : Type 0 where
  testing accepting joining returned : MainPhase
  accepted starting : ℤ → MainPhase

pub record Process : Type 0 where
  pub users : UserStore
  pub threads : List Thread
  pub running : Bool
  pub main : MainPhase

abbrev pub process_start : Process
process_start = record { users = empty; threads = []; running = true; main = testing }

abbrev pub has_ended : Phase → Bool
has_ended ended = true
has_ended phase = false

abbrev pub all_ended : List Thread → Bool
all_ended [] = true
all_ended (t ∷ ts) = has_ended t.phase && all_ended ts

-- A step of `main`, with what `accept` returns if it is called. `join` waits.
unfoldable pub main_step : ℤ → Process → Process
main_step result w = elim w.main [
  | testing ↦ record w { main = if w.running then accepting else joining }
  | accepting ↦ record w { main = accepted result }
  | accepted socket ↦ record w {
    main =
        if w.running then if int_eq socket minus_one then joining else starting socket else joining;
  }
  | starting socket ↦ record w { threads = w.threads ++ new_thread socket ∷ []; main = testing }
  | joining ↦ record w { main = if all_ended w.threads then returned else joining }
  | returned ↦ w
]

-- A signal, a step of `main`, or a turn of a thread that is no fault. Of its two reads of `running`
-- a thread makes the second now, and has made the first earlier.
pub data Move : Process → Process → Type 0 where
  interrupts :
      (sig : ℕ) (w : Process) → Move w (record w { running = signal_handler sig w.running })
  main_moves : (result : ℤ) (w : Process) → Move w (main_step result w)
  thread_moves :
      (before later : List Thread) (t t' : Thread) (users users' : UserStore) (running : Bool)
      (main : MainPhase) (r : Round)
      → r.still_running ≡ running
      → (running ≡ true → r.running ≡ true)
      → turn r t users ≡ ok (t', users')
      → Move
          (record { users = users; threads = before ++ t ∷ later; running = running; main = main })
          (record {
            users = users';
            threads = before ++ t' ∷ later;
            running = running;
            main = main;
          })

-- Any number of moves, the last one last.
pub data Runs : Process → Process → Type 0 where
  runs_none : (w : Process) → Runs w w
  runs_more : (w v u : Process) → Runs w v → Move v u → Runs w u
