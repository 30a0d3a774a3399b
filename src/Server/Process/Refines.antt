-- ===== src/Server/Process/Refines.antt =====
-- What the process does to its threads and its store is what `System` says of them.
use client_server_signaling.Base.{◌≡◌, Text, Bool, some, List, ◌∷◌, ◌++◌, ℤ}
use client_server_signaling.Fault.{ok}
use client_server_signaling.User.{User}
use client_server_signaling.UserStore.{UserStore, get_user, is_login}
use client_server_signaling.Server.System.{
  Thread, found, System, boot, accepts, runs, Reaches, stays, goes,
}
use client_server_signaling.Server.System.Reachable.{reachable-get_user, reachable-is_login}
use client_server_signaling.Server.Process.{
  MainPhase, testing, accepting, accepted, starting, joining, returned, Process, process_start,
  main_step, Move, interrupts, main_moves, thread_moves, Runs, runs_none, runs_more,
}

abbrev pub system_of : Process → System
system_of w = record { users = w.users; threads = w.threads }

main_step-Reaches :
    (s : System) (result : ℤ) (users : UserStore) (threads : List Thread) (running : Bool)
    (main : MainPhase)
    → Reaches s (record { users = users; threads = threads })
    → Reaches s (
        system_of (
          main_step result
            (record { users = users; threads = threads; running = running; main = main })))
unfolding main_step
main_step-Reaches s result users threads running testing h = h
main_step-Reaches s result users threads running accepting h = h
main_step-Reaches s result users threads running (accepted socket) h = h
main_step-Reaches s result users threads running (starting socket) h =
    goes s _ _ h (accepts socket _)
main_step-Reaches s result users threads running joining h = h
main_step-Reaches s result users threads running returned h = h

Move-Reaches :
    (s : System) (w v : Process) → Reaches s (system_of w) → Move w v → Reaches s (system_of v)
Move-Reaches s _ _ h (interrupts sig w) = h
Move-Reaches s _ _ h (main_moves result w) =
    main_step-Reaches s result w.users w.threads w.running w.main h
Move-Reaches s _ _ h (thread_moves before later t t' users users' running main r e e' m) =
    goes s _ _ h (runs before later t t' users users' r m)

pub Runs-Reaches : (w v : Process) → Runs w v → Reaches (system_of w) (system_of v)
Runs-Reaches w _ (runs_none _) = stays (system_of w)
Runs-Reaches w _ (runs_more _ v u rs m) = Move-Reaches (system_of w) v u (Runs-Reaches w v rs) m

-- However signals, `main` and the threads of the process come after one another, the store and the
-- threads are ones that `System` reaches: so a thread that is about to call `getUser` finds the
-- user, and `isLogin` reads no flag that nothing has set.
pub Runs-safe :
    (w : Process) (before later : List Thread) (t : Thread) (name sdp j : Text)
    → Runs process_start w
    → w.threads ≡ before ++ t ∷ later
    → t.phase ≡ found name sdp
    → Reaches boot (system_of w)
      × ((u : User) × (get_user name w.users ≡ some u))
      × ((b : Bool) × (is_login j w.users ≡ ok b))
Runs-safe w before later t name sdp j rs e p =
    let h = Runs-Reaches process_start w rs in
    (
      h,
      reachable-get_user (system_of w) before later t name sdp h e p,
      reachable-is_login (system_of w) j h,
    )
