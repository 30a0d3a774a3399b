-- ===== src/Client/Process.antt =====
-- The process of src/client.cpp once the listener's thread has been started: the menu of `main`, the
-- listener, and SIGINT, over the globals that they share.
pub mod Remote
pub mod Keeps
pub mod Shared
pub mod Apart
pub mod Continued
pub mod Mixed
pub mod Serial
pub mod Winding
pub mod Ending
use client_server_signaling.Base.{
  ℕ, Text, Bool, true, false, not, Option, none, some, List, [], ◌∷◌, ◌++◌, if◌then◌else◌, ◌≡◌, ℤ,
  minus_one, int_eq,
}
use client_server_signaling.Fault.{Result, ok, err, ◌>>=◌}
use client_server_signaling.Client.State.{Client, signal_handler}
use client_server_signaling.Client.Menu.{Choice, MenuFlow, again, left, exited, menu_round}
use client_server_signaling.Client.Listener.{Peer, Event, Listening, listens, stops, Heard, listen}

-- Where `main` stands: in the menu; joining the listener's thread; at its `return 0`; or the process
-- has exited from the menu.
pub data MenuPhase : Type 0 where
  choosing joining returned quit : MenuPhase

-- Where the listener stands: in `accept`; in its loop; or its thread has ended.
pub data ListenPhase : Type 0 where
  awaiting hearing gone : ListenPhase

pub record ClientProcess : Type 0 where
  pub client : Client
  pub menu : MenuPhase
  pub listener : ListenPhase
  pub requests : List Text
  pub events : List Event

abbrev pub after_round : MenuFlow → MenuPhase
after_round again = choosing
after_round left = joining
after_round exited = quit

abbrev pub after_message : Listening → ListenPhase
after_message listens = hearing
after_message stops = gone

-- The menu with an option, or `join`, which waits.
unfoldable pub menu_step : Choice → ClientProcess → Result ClientProcess
menu_step o w = elim w.menu [
  | choosing ↦ do
    t ← menu_round o w.client
    ok (record w { client = t.client; menu = after_round t.flow; requests = w.requests ++ t.sent })
  | joining ↦ elim w.listener [ gone ↦ ok (record w { menu = returned }) | _ ↦ ok w ]
  | _ ↦ ok w
]

-- The listener, with what `accept` or `recv` returns. It has read `running` before `recv` already.
unfoldable pub listener_step : Peer → ℤ → Bool → Option Text → ClientProcess → Result ClientProcess
listener_step p accept_result running received w = elim w.listener [
  | awaiting ↦ ok (record w {
    listener =
        if not w.client.running
        then gone
        else if int_eq accept_result minus_one
        then gone
        else hearing;
  })
  | hearing ↦ do
    h ← listen p ((running, received, w.client.running) ∷ []) w.client
    ok (record w {
      client = h.client;
      listener = after_message h.next;
      events = w.events ++ h.events;
    })
  | gone ↦ ok w
]

-- Nothing moves once the process has exited, or `main` has returned.
abbrev pub lives : MenuPhase → Bool
lives choosing = true
lives joining = true
lives phase = false

-- A signal, an option of the menu, or a message, that is no fault. SIGINT is a move of its own, so
-- that no option has one before it.
pub data Move (p : Peer) : ClientProcess → ClientProcess → Type 0 where
  interrupts :
      (sig : ℕ) (w : ClientProcess)
      → lives w.menu ≡ true
      → Move p w (record w { client = signal_handler sig w.client })
  menu_moves :
      (o : Choice) (w v : ClientProcess)
      → o.interrupted ≡ false
      → lives w.menu ≡ true
      → menu_step o w ≡ ok v
      → Move p w v
  listener_moves :
      (accept_result : ℤ) (running : Bool) (received : Option Text) (w v : ClientProcess)
      → (w.client.running ≡ true → running ≡ true)
      → lives w.menu ≡ true
      → listener_step p accept_result running received w ≡ ok v
      → Move p w v
