-- ===== src/Server/Loop.antt =====
-- The loop of `client_handler`, and the sockets that it closes at its end.
pub mod Stores
pub mod Kinds
pub mod Calls
pub mod Closing
pub mod Reconnects
use client_server_signaling.Base.{
  ℕ, Text, codes, Bool, true, false, not, Option, none, some, List, [], ◌∷◌, ◌++◌, if◌then◌else◌,
  if_cases, ◌≡◌, refl, ◌⊎◌, inl, inr, ◌==◌, ℤ, minus_one, int_eq,
}
use client_server_signaling.Fault.{Result, ok, err, ◌>>=◌}
use client_server_signaling.UserStore.{UserStore, StoreOp, apply_all}
use client_server_signaling.Wire.{socket_buffer_size, read_buffer, begins}
use client_server_signaling.Server.Session.{
  Session, initial, Env, Action, closes, Flow, goes_on, breaks, Turn,
}
use client_server_signaling.Server.Commands.{
  handle_client, handle_signup, handle_login, handle_logout, handle_exit,
}
use client_server_signaling.Server.Call.{handle_call, quiet}

-- The ladder of `strncmp`. A message of no known kind is passed over.
unfoldable pub dispatch : Env → Session → UserStore → Text → Result Turn
dispatch env s users text =
    if begins (codes "CLIENT") text
    then handle_client env s users text
    else if begins (codes "SIGNUP") text
    then handle_signup s users text
    else if begins (codes "LOGIN") text
    then handle_login s users text
    else if begins (codes "CALL") text
    then handle_call env s users text
    else if begins (codes "LOGOUT") text
    then handle_logout s users
    else if begins (codes "EXIT") text
    then handle_exit env s users
    else ok (quiet s users)

pub Flow-cases : (f : Flow) → (f ≡ breaks) ⊎ (f ≡ goes_on)
Flow-cases breaks = inl refl
Flow-cases goes_on = inr refl

-- A property of each branch is one of the ladder.
pub dispatch_cases {ℓ} :
    (P : Result Turn → Type ℓ) (env : Env) (s : Session) (users : UserStore) (text : Text)
    → P (handle_client env s users text)
    → P (handle_signup s users text)
    → P (handle_login s users text)
    → P (handle_call env s users text)
    → P (handle_logout s users)
    → P (handle_exit env s users)
    → P (ok (quiet s users))
    → P (dispatch env s users text)
unfolding dispatch
dispatch_cases P env s users text client signup login call logout exit other =
    if_cases P (begins (codes "CLIENT") text) _ _ client (
      if_cases P (begins (codes "SIGNUP") text) _ _ signup (
        if_cases P (begins (codes "LOGIN") text) _ _ login (
          if_cases P (begins (codes "CALL") text) _ _ call (
            if_cases P (begins (codes "LOGOUT") text) _ _ logout
              (if_cases P (begins (codes "EXIT") text) _ _ exit other)))))

-- One round: what other threads did since the last one, the two reads of `running`, the bytes that
-- `recv` gives (`none` if it returns 0 or less), and the surroundings of the branch.
pub record Round : Type 0 where
  pub others : List StoreOp
  pub running : Bool
  pub received : Option Text
  pub still_running : Bool
  pub env : Env

abbrev pub stop : Session → UserStore → Turn
stop s users = record { session = s; users = users; actions = []; flow = breaks }

-- What follows `recv`.
unfoldable pub on_recv : Bool → Option Text → Env → Session → UserStore → Result Turn
on_recv still_running none env s users = ok (stop s users)
on_recv still_running (some bytes) env s users =
    if not still_running
    then ok (stop s users)
    else (do text ← read_buffer socket_buffer_size bytes; dispatch env s users text)

unfoldable pub round : Round → Session → UserStore → Result Turn
unfolding on_recv
round r s before =
    let users = apply_all r.others before in
    if not r.running then ok (stop s users) else on_recv r.still_running r.received r.env s users

-- After the loop: `close(client_socket)`, and once more if the other socket was opened.
unfoldable pub close_sockets : Session → List Action
close_sockets s =
    closes s.client_socket
    ∷ (if int_eq s.client_socket_fd minus_one then [] else closes s.client_socket ∷ [])

-- The thread so far: `flow` is `breaks` once it has ended.
abbrev then_do : Turn → Result Turn → Result Turn
then_do t rest = do u ← rest; ok (record u { actions = t.actions ++ u.actions })

finish : Turn → Result Turn
finish t = ok (record t { actions = t.actions ++ close_sockets t.session })

-- The rounds of one thread. At the end of the list it waits in `recv`.
unfoldable pub run_rounds : List Round → Session → UserStore → Result Turn
unfolding finish
run_rounds [] s users = ok (quiet s users)
run_rounds (r ∷ rs) s users = do
  t ← round r s users
  elim t.flow [ breaks ↦ finish t | goes_on ↦ then_do t (run_rounds rs t.session t.users) ]

unfoldable pub client_handler : ℤ → List Round → UserStore → Result Turn
client_handler client_socket rounds users = run_rounds rounds (initial client_socket) users

-- The handler of SIGINT, which is signal 2.
abbrev pub signal_handler : ℕ → Bool → Bool
signal_handler sig running = if sig == 2 then false else running
