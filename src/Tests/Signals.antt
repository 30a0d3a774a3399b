-- ===== src/Tests/Signals.antt =====
-- The process of the server: two connections are accepted; then a call is under way, or SIGINT comes.
use client_server_signaling.Base.{
  ℕ, ◌≤◌, ◌+◌, ◌*◌, arith, ◌≡◌, refl, Bool, true, false, none, some, All, List, [], ◌∷◌, ◌++◌, pos,
  text_eq, minus_one,
}
use client_server_signaling.Fault.{ok}
use client_server_signaling.User.{User}
use client_server_signaling.UserStore.{find, has_user, get_user, is_login}
use client_server_signaling.Server.Session.{Action, closes}
use client_server_signaling.Server.Commands.{signup_reply, login_reply}
use client_server_signaling.Server.Loop.{Round, close_sockets}
use client_server_signaling.Server.System.{
  Thread, Phase, asked, found, receiving, ended, boot, new_thread, ends, Reaches, turn, receive,
  proceed,
}
use client_server_signaling.Server.Process.{
  MainPhase, testing, accepting, accepted, starting, joining, returned, Process, process_start,
  main_step, interrupts, main_moves, thread_moves, Runs, runs_none, runs_more,
}
use client_server_signaling.Server.Process.Refines.{system_of, Runs-safe}
use client_server_signaling.Server.Process.Joined.{Runs-joined}
use client_server_signaling.Server.Process.Ending.{
  Winds, winds_none, winds_more, Advances, MovesOn, Winds-ends,
}
use client_server_signaling.Tests.Data.{bob, receives_text}
use client_server_signaling.Tests.Interleaving.{
  first, second, replied, calling, users_with, offer, signs_up, logs_in, calls,
}

abbrev accepts_at : MainPhase → List Thread → Process
accepts_at main threads = record { users = []; threads = threads; running = true; main = main }

-- `main` accepts a connection and is back at its test.
accepts_one :
    (n : ℕ) (threads : List Thread)
    → Runs process_start (accepts_at testing threads)
    → Runs process_start (accepts_at testing (threads ++ new_thread (pos n) ∷ []))
unfolding main_step
accepts_one n threads h =
    runs_more _ (accepts_at (starting (pos n)) threads) _
      (runs_more _ (accepts_at (accepted (pos n)) threads) _
        (runs_more _ (accepts_at accepting threads) _
          (runs_more _ (accepts_at testing threads) _ h (main_moves (pos n) _))
          (main_moves (pos n) _))
        (main_moves (pos n) _))
      (main_moves (pos n) _)

accepts_two : Runs process_start (accepts_at testing (first ∷ second ∷ []))
accepts_two = accepts_one 8 (first ∷ []) (accepts_one 4 [] (runs_none process_start))

-- The first thread signs bob up and in, and the second calls him.
abbrev in_call : Phase → Process
in_call phase = record {
  users = users_with true;
  threads = replied (signup_reply ∷ login_reply ∷ []) ∷ calling phase ∷ [];
  running = true;
  main = testing;
}

finds_online :
    turn (receives_text []) (calling (asked bob offer)) (users_with true)
    ≡ ok (calling (found bob offer), users_with true)
unfolding turn proceed has_user find text_eq
finds_online = refl

call_found : Runs process_start (in_call (found bob offer))
call_found =
    runs_more _ (in_call (asked bob offer)) _
      (runs_more _ (in_call receiving) _
        (runs_more _ _ _
          (runs_more _ _ _ accepts_two
            (thread_moves [] (second ∷ []) _ _ _ _ true testing _ refl (λ e. refl) signs_up))
          (thread_moves [] (second ∷ []) _ _ _ _ true testing _ refl (λ e. refl) logs_in))
        (thread_moves (replied (signup_reply ∷ login_reply ∷ []) ∷ []) [] _ _ _ _ true testing _
          refl (λ e. refl) calls))
      (thread_moves (replied (signup_reply ∷ login_reply ∷ []) ∷ []) [] _ _ _ _ true testing
        (receives_text []) refl (λ e. refl) finds_online)

Runs-safe_example :
    Reaches boot (system_of (in_call (found bob offer)))
    × ((u : User) × (get_user bob (users_with true) ≡ some u))
    × ((b : Bool) × (is_login bob (users_with true) ≡ ok b))
Runs-safe_example =
    Runs-safe (in_call (found bob offer)) (replied (signup_reply ∷ login_reply ∷ []) ∷ []) []
      (calling (found bob offer)) bob offer bob call_found refl refl

-- SIGINT comes with one thread, which waits for its client.
abbrev stopping : MainPhase → Thread → Process
stopping main thread = record { users = []; threads = thread ∷ []; running = false; main = main }

abbrev closed_first : Thread
closed_first = ends first

-- Its client closes the connection.
abbrev hangs_up : Round
hangs_up = record (receives_text []) { received = none; still_running = false }

hang_up : turn hangs_up first [] ≡ ok (closed_first, [])
unfolding turn receive close_sockets
hang_up = refl

interrupted : Runs process_start (stopping testing first)
interrupted = runs_more _ _ _ (accepts_one 4 [] (runs_none process_start)) (interrupts 2 _)

wound_up : Runs process_start (stopping returned closed_first)
unfolding main_step close_sockets
wound_up =
    runs_more _ (stopping joining closed_first) _
      (runs_more _ (stopping joining first) _
        (runs_more _ (stopping testing first) _ interrupted (main_moves minus_one _))
        (thread_moves [] [] _ _ _ _ false joining hangs_up refl (λ e. refl) hang_up))
      (main_moves minus_one _)

Runs-joined_example :
    (ended ≡ ended) × ((acts : List Action) × (closed_first.actions ≡ acts ++ closes (pos 4) ∷ []))
Runs-joined_example =
    Runs-joined (stopping returned closed_first) [] [] closed_first wound_up refl refl

joins : Winds (stopping testing first) 1 (stopping joining first)
unfolding main_step
joins =
    winds_more 0 (stopping testing first) (stopping joining first) winds_none
      (main_moves minus_one _) (λ e. ground arith)

Winds-ends_example :
    (1 ≤ 4 + 4 * 1)
    × (1 ≤ 2)
    × All (Advances hangs_up []) (first ∷ [])
    × MovesOn minus_one (stopping joining first)
Winds-ends_example =
    Winds-ends (stopping testing first) (stopping joining first) 1 hangs_up minus_one refl joins
      refl
