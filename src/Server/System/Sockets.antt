-- ===== src/Server/System/Sockets.antt =====
-- The sockets that a turn of a thread uses.
use client_server_signaling.Base.{
  ◌≡◌, ◌≢◌, refl, sym, subst, arith, Text, codes, Bool, true, false, Option, some, none, List, ◌++◌,
  ◌⊎◌, inl, inr, ℤ, minus_one, int_eq, All, All-append, if_cases, Bool-cases, Option-cases,
}
use client_server_signaling.Fault.{>>=-cases, Result, ok, err, ◌>>=◌}
use client_server_signaling.UserStore.{UserStore, find, is_login, has_user, get_user}
use client_server_signaling.Wire.{socket_buffer_size, read_buffer, begins}
use client_server_signaling.Server.Session.{Session, Env, Action, Flow, goes_on, breaks, Turn}
use client_server_signaling.Server.Call.{parse_call, invite}
use client_server_signaling.Server.Loop.{Round, dispatch, dispatch_cases, close_sockets}
use client_server_signaling.Server.Commands.Sockets.{
  Opened, Opened-left, Opened-right, Aimed, Stored, IsFine, Fair,
}
use client_server_signaling.Server.Commands.Sockets.Branches.{
  handle_client-Fair, handle_signup-Fair, handle_login-Fair, handle_logout-Fair, handle_exit-Fair,
}
use client_server_signaling.Server.Call.Sockets.{quiet-Fair, invite-Fair, handle_call-Fair}
use client_server_signaling.Server.System.{
  Thread, Phase, receiving, ended, asked, found, inviting, alone, ends, after_turn, ask, serve,
  receive, proceed, turn,
}
use client_server_signaling.Server.System.Shutdown.{ended_cases, turn-ended}

module _ (K : ℤ → Type 0) where
  abbrev pub Callee : Phase → Type 0
  Callee (inviting u name sdp) = (fd : ℤ) → u.socket_fd ≡ some fd → K fd
  Callee receiving = Unit
  Callee ended = Unit
  Callee (asked name sdp) = Unit
  Callee (found name sdp) = Unit

  -- A thread has only used sockets of the kind `K`, besides its own connection, and will.
  pub record Keeps (t : Thread) : Type 0 where
    pub aimed : All (Aimed K t.session.client_socket) t.actions
    pub owned : (t.phase ≡ ended) ⊎ K t.session.client_socket_fd
    pub callee : Callee t.phase

  -- What a turn leaves behind, if it is no fault, and if it connects sockets of the kind only.
  abbrev Leaves : Result (Thread × UserStore) → Type 0
  Leaves (err f) = Unit
  Leaves (ok (t, users)) = ((fd : ℤ) → Opened fd t.actions → K fd) → Keeps t × Stored K users

  Leaves-bind {ℓ} :
      {A : Type ℓ} (m : Result A) (f : A → Result (Thread × UserStore))
      → ((a : A) → m ≡ ok a → Leaves (f a))
      → Leaves (m >>= f)
  Leaves-bind m f h = >>=-cases Leaves m f (λ why. tt) h

  dispatch-Fair :
      (env : Env) (s : Session) (users : UserStore) (text : Text)
      → Fair K s users (dispatch (alone env) s users text)
  dispatch-Fair env s users text =
      dispatch_cases (Fair K s users) (alone env) s users text
        (handle_client-Fair K (alone env) s users text) (handle_signup-Fair K s users text)
        (handle_login-Fair K s users text) (handle_call-Fair K env s users text)
        (handle_logout-Fair K s users) (handle_exit-Fair K (alone env) s users)
        (quiet-Fair K s users)

  close_sockets-Aimed : (s : Session) → All (Aimed K s.client_socket) (close_sockets s)
  unfolding close_sockets
  close_sockets-Aimed s = (
    refl,
    if_cases (All (Aimed K s.client_socket)) (int_eq s.client_socket_fd minus_one) _ _ tt
        (refl, tt),
  )

  ends-Leaves :
      (t : Thread) (users : UserStore)
      → All (Aimed K t.session.client_socket) t.actions
      → Stored K users
      → Leaves (ok (ends t, users))
  ends-Leaves t users aimed h _ = (
    record {
      aimed =
          All-append (Aimed K t.session.client_socket) t.actions (close_sockets t.session) aimed
            (close_sockets-Aimed t.session);
      owned = inl refl;
      callee = tt;
    },
    h,
  )

  -- A whole branch that is fine.
  after_turn-Leaves :
      (t : Thread) (s : Session) (users : UserStore) (actions : List Action) (flow : Flow)
      → let v : Turn = record { session = s; users = users; actions = actions; flow = flow } in
        All (Aimed K t.session.client_socket) t.actions
        → K t.session.client_socket_fd
        → (((fd : ℤ) → Opened fd actions → K fd) → IsFine K t.session v)
        → Leaves (ok (after_turn t v, users))
  unfolding after_turn
  after_turn-Leaves t s users actions goes_on aimed own fine opened =
      let f = fine (λ fd o. opened fd (Opened-right fd t.actions actions o)) in
      (
        record {
          aimed =
              subst (λ c. All (Aimed K c) (t.actions ++ actions)) (sym f.same_socket)
                (All-append (Aimed K t.session.client_socket) t.actions actions aimed f.aimed);
          owned = elim f.owned [
            | inl e ↦ absurd (ground arith)
            | inr (inl e) ↦ inr (subst K (sym e) own)
            | inr (inr o) ↦
                inr
                  (opened s.client_socket_fd (Opened-right s.client_socket_fd t.actions actions o))
          ];
          callee = tt;
        },
        f.stored,
      )
  after_turn-Leaves t s users actions breaks aimed own fine opened =
      let f = fine (λ fd o. opened fd (
        Opened-left fd (t.actions ++ actions) (close_sockets s)
          (Opened-right fd t.actions actions o))) in
      ends-Leaves (record { session = s; phase = receiving; actions = t.actions ++ actions }) users
        (subst (λ c. All (Aimed K c) (t.actions ++ actions)) (sym f.same_socket)
          (All-append (Aimed K t.session.client_socket) t.actions actions aimed f.aimed))
        f.stored opened

  -- A whole branch in a turn.
  branch-Leaves :
      (t : Thread) (users : UserStore) (m : Result Turn)
      → All (Aimed K t.session.client_socket) t.actions
      → K t.session.client_socket_fd
      → Stored K users
      → Fair K t.session users m
      → Leaves (do v ← m; ok (after_turn t v, v.users))
  branch-Leaves t users m aimed own h fair = Leaves-bind m _ λ v e.
      after_turn-Leaves t v.session v.users v.actions v.flow aimed own
        (λ opened. fair v e own h opened)

  module _ (s : Session) (actions : List Action) (users : UserStore)
      (aimed : All (Aimed K s.client_socket) actions) (own : K s.client_socket_fd)
      (h : Stored K users) where
    abbrev at : Phase → Thread
    at phase = record { session = s; phase = phase; actions = actions }

    stays-Leaves : (phase : Phase) → Callee phase → Leaves (ok (at phase, users))
    stays-Leaves phase callee _ = (record { aimed = aimed; owned = inr own; callee = callee }, h)

    serve-Leaves : (env : Env) (text : Text) → Leaves (serve env (at receiving) users text)
    unfolding serve ask
    serve-Leaves env text =
        if_cases Leaves (begins (codes "CALL") text) _ _
          (Leaves-bind (parse_call text) _ λ (name, sdp) _.
            Leaves-bind (is_login name users) _ λ l _. elim (Bool-cases l) [
              | inl e ↦ rw e (stays-Leaves (asked name sdp) tt)
              | inr e ↦ rw e (stays-Leaves receiving tt)
            ])
          (branch-Leaves (at receiving) users (dispatch (alone env) s users text) aimed own h
            (dispatch-Fair env s users text))

    receive-Leaves :
        (running : Bool) (received : Option Text) (still : Bool) (env : Env)
        → Leaves (receive running received still env (at receiving) users)
    unfolding receive
    receive-Leaves false received still env = ends-Leaves (at receiving) users aimed h
    receive-Leaves true none still env = ends-Leaves (at receiving) users aimed h
    receive-Leaves true (some bytes) false env = ends-Leaves (at receiving) users aimed h
    receive-Leaves true (some bytes) true env =
        Leaves-bind (read_buffer socket_buffer_size bytes) _ λ text _. serve-Leaves env text

    turn-Leaves :
        (r : Round) (phase : Phase)
        → phase ≢ ended
        → Callee phase
        → Leaves (turn r (at phase) users)
    unfolding turn proceed get_user
    turn-Leaves r receiving k callee = receive-Leaves r.running r.received r.still_running r.env
    turn-Leaves r ended k callee = absurd (k refl)
    turn-Leaves r (asked name sdp) k callee = elim (Bool-cases (has_user name users)) [
      | inl e ↦ rw e (stays-Leaves (found name sdp) tt)
      | inr e ↦ rw e (stays-Leaves receiving tt)
    ]
    turn-Leaves r (found name sdp) k callee = elim (Option-cases (find name users)) [
      | inl e ↦ rw (Leaves, proceed, e) (stays-Leaves receiving tt)
      | inr (u, e) ↦
          rw (Leaves, proceed, e)
            (stays-Leaves (inviting u name sdp) (λ fd bound. h name u fd e bound))
    ]
    turn-Leaves r (inviting u name sdp) k callee =
        branch-Leaves (at (inviting u name sdp)) users (invite (alone r.env) s users u name sdp)
          aimed own h (invite-Fair K r.env s users u name sdp callee)

  -- A turn of a thread that keeps to the kind, in a store of the kind.
  pub turn-Keeps :
      (r : Round) (t t' : Thread) (users users' : UserStore)
      → turn r t users ≡ ok (t', users')
      → Keeps t
      → Stored K users
      → ((fd : ℤ) → Opened fd t'.actions → K fd)
      → Keeps t' × Stored K users'
  turn-Keeps r t t' users users' e k h opened = elim (ended_cases t.phase) [
    | inl over ↦
        let (same_thread, same_users) = turn-ended r t t' users users' over e in
        (subst Keeps (sym same_thread) k, subst (Stored K) (sym same_users) h)
    | inr going ↦ elim k.owned [
      | inl over ↦ absurd (going over)
      | inr own ↦
          subst Leaves e
            (turn-Leaves t.session t.actions users k.aimed own h r t.phase going k.callee) opened
    ]
  ]
