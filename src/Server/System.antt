-- ===== src/Server/System.antt =====
-- All threads of the server at once: `main` starts one for each connection, and the threads take
-- turns at the store. A turn goes from one lock of a thread to its next one, so that the CALL
-- branch is four turns, between which any other thread may run.
pub mod Users
pub mod Reachable
pub mod Shutdown
pub mod Isolation
pub mod Calls
pub mod Sockets
pub mod Grows
pub mod Connected
use client_server_signaling.Base.{
  Text, codes, Bool, true, false, Option, none, some, List, [], ◌∷◌, ◌++◌, if◌then◌else◌, ℤ, ◌≡◌,
}
use client_server_signaling.Fault.{Result, ok, ◌>>=◌}
use client_server_signaling.User.{User}
use client_server_signaling.UserStore.{UserStore, empty, is_login, has_user, get_user}
use client_server_signaling.Wire.{socket_buffer_size, read_buffer, begins}
use client_server_signaling.Server.Session.{Session, Env, Action, Turn, initial, goes_on, breaks}
use client_server_signaling.Server.Call.{parse_call, invite}
use client_server_signaling.Server.Loop.{Round, dispatch, close_sockets}

-- Where a thread stands: before `recv`; in the CALL branch before `hasUser`, before `getUser`, and
-- with the callee at hand; or at its end.
pub data Phase : Type 0 where
  receiving ended : Phase
  asked found : Text → Text → Phase
  inviting : User → Text → Text → Phase

pub record Thread : Type 0 where
  pub session : Session
  pub phase : Phase
  pub actions : List Action

abbrev pub new_thread : ℤ → Thread
new_thread socket = record { session = initial socket; phase = receiving; actions = [] }

-- Within a turn no other thread touches the store.
abbrev pub alone : Env → Env
alone env = record env { after_is_login = []; after_has_user = []; while_waiting = [] }

abbrev pub ends : Thread → Thread
ends t = record t { phase = ended; actions = t.actions ++ close_sockets t.session }

-- The thread after a whole branch.
unfoldable pub after_turn : Thread → Turn → Thread
after_turn t u =
    let v : Thread = record {
      session = u.session;
      phase = receiving;
      actions = t.actions ++ u.actions;
    } in
    elim u.flow [ goes_on ↦ v | breaks ↦ ends v ]

-- The CALL branch up to `isLogin`.
unfoldable pub ask : Thread → UserStore → Text → Result (Thread × UserStore)
ask t users text = do
  (name, sdp) ← parse_call text
  logged_in ← is_login name users
  ok (if logged_in then record t { phase = asked name sdp } else t, users)

unfoldable pub serve : Env → Thread → UserStore → Text → Result (Thread × UserStore)
serve env t users text =
    if begins (codes "CALL") text
    then ask t users text
    else (do u ← dispatch (alone env) t.session users text; ok (after_turn t u, u.users))

-- The loop's body up to its first lock: the two reads of `running`, with `recv` between them.
unfoldable pub receive :
    Bool → Option Text → Bool → Env → Thread → UserStore → Result (Thread × UserStore)
receive false received still_running env t users = ok (ends t, users)
receive true none still_running env t users = ok (ends t, users)
receive true (some bytes) false env t users = ok (ends t, users)
receive true (some bytes) true env t users = do
  text ← read_buffer socket_buffer_size bytes
  serve env t users text

-- The turn of a thread that is not before `recv`.
unfoldable pub proceed : Env → Thread → UserStore → Result (Thread × UserStore)
proceed env t users = elim t.phase [
  | receiving ↦ ok (t, users)
  | ended ↦ ok (t, users)
  | asked name sdp ↦
      ok (record t { phase = if has_user name users then found name sdp else receiving }, users)
  | found name sdp ↦ elim (get_user name users) [
    | none ↦ ok (record t { phase = receiving }, users)
    | some u ↦ ok (record t { phase = inviting u name sdp }, users)
  ]
  | inviting u name sdp ↦ do
    v ← invite (alone env) t.session users u name sdp
    ok (after_turn t v, v.users)
]

-- One turn of a thread. Of the round it uses what its phase asks for.
unfoldable pub turn : Round → Thread → UserStore → Result (Thread × UserStore)
turn r t users = elim t.phase [
  | receiving ↦ receive r.running r.received r.still_running r.env t users
  | _ ↦ proceed r.env t users
]

pub record System : Type 0 where
  pub users : UserStore
  pub threads : List Thread

abbrev pub boot : System
boot = record { users = empty; threads = [] }

-- A connection is accepted, or one of the threads takes a turn that is no fault.
pub data Step : System → System → Type 0 where
  accepts :
      (socket : ℤ) (s : System)
      → Step s (record s { threads = s.threads ++ new_thread socket ∷ [] })
  runs :
      (before later : List Thread) (t t' : Thread) (users users' : UserStore) (r : Round)
      → turn r t users ≡ ok (t', users')
      → Step
          (record { users = users; threads = before ++ t ∷ later })
          (record { users = users'; threads = before ++ t' ∷ later })

-- Any number of steps, the last one last.
pub data Reaches : System → System → Type 0 where
  stays : (s : System) → Reaches s s
  goes : (s t u : System) → Reaches s t → Step t u → Reaches s u
