-- ===== src/Server/System/Isolation.antt =====
-- Which users a thread can change: those whose name its own session has taken.
use client_server_signaling.Base.{
  ◌≡◌, ◌≢◌, refl, subst, arith, Text, codes, Bool, true, false, Option, none, some, List, inl, inr,
  Bool-cases, Option-cases, if_cases,
}
use client_server_signaling.Fault.{>>=-cases, Result, ok, err, ◌>>=◌, >>=-eq-ok}
use client_server_signaling.User.{user}
use client_server_signaling.UserStore.{
  UserStore, adds, logins, logs_out, apply, apply_all, find, add_user, login_user, log_out_user,
  is_login, has_user, get_user,
}
use client_server_signaling.UserStore.Spec.{find-apply_ne}
use client_server_signaling.Wire.{socket_buffer_size, word_size, read_buffer, begins, scan_two}
use client_server_signaling.Server.Session.{Session, Env, Action, Turn}
use client_server_signaling.Server.Commands.{
  handle_client, handle_signup, handle_login, handle_logout, handle_exit, scan_client,
}
use client_server_signaling.Server.Call.{parse_call, invite, handle_call}
use client_server_signaling.Server.Call.Stores.{invite-users}
use client_server_signaling.Server.Loop.{Round, dispatch, dispatch_cases, Flow-cases}
use client_server_signaling.Server.System.{
  Thread, Phase, receiving, ended, asked, found, inviting, alone, after_turn, ask, serve, receive,
  proceed, turn,
}

-- Every other name is found as before.
abbrev Keeps : Text → UserStore → UserStore → Type 0
Keeps name users users' = (j : Text) → name ≢ j → find j users' ≡ find j users

Keeps-refl : (name : Text) (users users' : UserStore) → users' ≡ users → Keeps name users users'
Keeps-refl name users users' e j h = rw e

-- The same of a branch, for the name that the session has after it.
abbrev BranchKeeps : UserStore → Result Turn → Type 0
BranchKeeps users r = (t : Turn) → r ≡ ok t → Keeps t.session.username users t.users

module _ (env : Env) (s : Session) (users : UserStore) (text : Text) where
  handle_client-BranchKeeps : BranchKeeps users (handle_client env s users text)
  unfolding handle_client
  handle_client-BranchKeeps t h =
      let (u, e, h') = >>=-eq-ok (scan_client s text) _ h in
      Keeps-refl t.session.username users t.users (ground arith)

  handle_signup-BranchKeeps : BranchKeeps users (handle_signup s users text)
  unfolding handle_signup apply
  handle_signup-BranchKeeps t h j n =
      let (p, e, h') = >>=-eq-ok (scan_two (codes "SIGNUP") word_size text) _ h in
      let u = user p.0 p.1 false s.client_socket_fd in
      let e' : t.users ≡ add_user u users = ground arith in
      let e'' : t.session.username ≡ p.0 = ground arith in
      rw e' (find-apply_ne (adds u) j users (subst (λ w. w ≢ j) e'' n))

  handle_login-BranchKeeps : BranchKeeps users (handle_login s users text)
  unfolding handle_login apply
  handle_login-BranchKeeps t h j n =
      let (p, e, h') = >>=-eq-ok (scan_two (codes "LOGIN") word_size text) _ h in
      let e' : t.users ≡ (login_user p.0 p.1 users).0 = ground arith in
      let e'' : t.session.username ≡ p.0 = ground arith in
      rw e' (find-apply_ne (logins p.0 p.1) j users (subst (λ w. w ≢ j) e'' n))

  handle_logout-BranchKeeps : BranchKeeps users (handle_logout s users)
  unfolding handle_logout apply
  handle_logout-BranchKeeps t h j n =
      let e : t.users ≡ log_out_user s.username users = ground arith in
      let e' : t.session.username ≡ s.username = ground arith in
      rw e (find-apply_ne (logs_out s.username) j users (subst (λ w. w ≢ j) e' n))

  handle_exit-BranchKeeps : BranchKeeps users (handle_exit env s users)
  unfolding handle_exit
  handle_exit-BranchKeeps t h = Keeps-refl t.session.username users t.users (ground arith)

  handle_call-BranchKeeps : BranchKeeps users (handle_call (alone env) s users text)
  unfolding handle_call apply_all
  handle_call-BranchKeeps t h =
      let (p, _, h1) = >>=-eq-ok (parse_call text) _ h in
      let (l, _, h2) = >>=-eq-ok (is_login p.0 users) _ h1 in
      Keeps-refl t.session.username users t.users (elim (Bool-cases l) [
        | inr e ↦ ground arith
        | inl e ↦ elim (Bool-cases (has_user p.0 users)) [
          | inr e' ↦ ground arith
          | inl e' ↦ elim (Option-cases (get_user p.0 users)) [
            | inl e'' ↦ ground arith
            | inr (u, e'') ↦ ground (arith, invite-users (alone env) s users u p.0 p.1 t)
          ]
        ]
      ])

dispatch-BranchKeeps :
    (env : Env) (s : Session) (users : UserStore) (text : Text)
    → BranchKeeps users (dispatch (alone env) s users text)
dispatch-BranchKeeps env s users text =
    dispatch_cases (BranchKeeps users) (alone env) s users text
      (handle_client-BranchKeeps (alone env) s users text)
      (handle_signup-BranchKeeps env s users text) (handle_login-BranchKeeps env s users text)
      (handle_call-BranchKeeps env s users text) (handle_logout-BranchKeeps env s users text)
      (handle_exit-BranchKeeps (alone env) s users text)
      (λ t h. Keeps-refl t.session.username users t.users (ground arith))

-- What a turn leaves behind, if it is no fault.
abbrev Isolated : UserStore → Result (Thread × UserStore) → Type 0
Isolated users (ok (t, users')) = Keeps t.session.username users users'
Isolated users (err f) = Unit

Isolated-bind {ℓ} :
    {A : Type ℓ} (users : UserStore) (m : Result A) (f : A → Result (Thread × UserStore))
    → ((a : A) → m ≡ ok a → Isolated users (f a))
    → Isolated users (m >>= f)
Isolated-bind users m f h = >>=-cases (Isolated users) m f (λ why. tt) h

after_turn-session : (t : Thread) (v : Turn) → (after_turn t v).session ≡ v.session
unfolding after_turn
after_turn-session t v = elim (Flow-cases v.flow) [ inl e ↦ rw e | inr e ↦ rw e ]

after_turn-Keeps :
    (t : Thread) (v : Turn) (users : UserStore)
    → Keeps v.session.username users v.users
    → Isolated users (ok (after_turn t v, v.users))
after_turn-Keeps t v users k = rw (after_turn-session t v) k

serve-Isolated :
    (env : Env) (t : Thread) (users : UserStore) (text : Text)
    → Isolated users (serve env t users text)
unfolding serve ask
serve-Isolated env t users text =
    if_cases (Isolated users) (begins (codes "CALL") text) _ _
      (Isolated-bind users (parse_call text) _
        λ (name, sdp) _. Isolated-bind users (is_login name users) _ λ l e. λ j h. refl)
      (Isolated-bind users (dispatch (alone env) t.session users text) _
        λ v e. after_turn-Keeps t v users (dispatch-BranchKeeps env t.session users text v e))

receive-Isolated :
    (running : Bool) (received : Option Text) (still : Bool) (env : Env) (t : Thread)
    (users : UserStore)
    → Isolated users (receive running received still env t users)
unfolding receive
receive-Isolated false received still env t users = λ j h. refl
receive-Isolated true none still env t users = λ j h. refl
receive-Isolated true (some bytes) false env t users = λ j h. refl
receive-Isolated true (some bytes) true env t users =
    Isolated-bind users (read_buffer socket_buffer_size bytes) _
      λ text _. serve-Isolated env t users text

turn-Isolated :
    (r : Round) (s : Session) (phase : Phase) (actions : List Action) (users : UserStore)
    → Isolated users (turn r (record { session = s; phase = phase; actions = actions }) users)
unfolding turn proceed apply_all
turn-Isolated r s receiving actions users =
    receive-Isolated r.running r.received r.still_running r.env _ users
turn-Isolated r s ended actions users = λ j h. refl
turn-Isolated r s (asked name sdp) actions users = λ j h. refl
turn-Isolated r s (found name sdp) actions users = elim (Option-cases (get_user name users)) [
  | inl e ↦ rw (Isolated, proceed, e) (λ j h. refl)
  | inr (u, e) ↦ rw (Isolated, proceed, e) (λ j h. refl)
]
turn-Isolated r s (inviting u name sdp) actions users =
    Isolated-bind users (invite (alone r.env) s users u name sdp) _ λ v e.
      after_turn-Keeps _ v users (
        Keeps-refl v.session.username users v.users
          (invite-users (alone r.env) s users u name sdp v e))

-- A thread that takes a turn, whatever it has received, changes no user but the one whose name its
-- session has after it: every other name is found in the store as before.
pub turn-keeps_others :
    (r : Round) (t t' : Thread) (users users' : UserStore) (j : Text)
    → turn r t users ≡ ok (t', users')
    → t'.session.username ≢ j
    → get_user j users' ≡ get_user j users
unfolding get_user
turn-keeps_others r t t' users users' j e =
    subst (Isolated users) e (turn-Isolated r t.session t.phase t.actions users) j
