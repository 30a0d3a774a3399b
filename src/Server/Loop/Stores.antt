-- ===== src/Server/Loop/Stores.antt =====
-- How a thread changes the store that all threads share.
use client_server_signaling.Base.{
  ◌≡◌, arith, Text, Bool, true, false, Option, none, some, List, [], ◌∷◌, ℤ, inl, inr, Bool-cases,
  All,
}
use client_server_signaling.Fault.{Result, ok, err, ◌>>=◌, >>=-eq-ok}
use client_server_signaling.UserStore.{UserStore, apply_all, is_login, has_user, empty}
use client_server_signaling.UserStore.Invariant.{FromServer}
use client_server_signaling.UserStore.Evolves.{
  Evolves, Evolves-refl, Evolves-trans, Evolves-apply_all, Evolves-has_user, Evolves-is_login,
}
use client_server_signaling.Wire.{read_buffer, socket_buffer_size}
use client_server_signaling.Server.Session.{Session, initial, Env, Turn}
use client_server_signaling.Server.Commands.Stores.{
  handle_client-Evolves, handle_signup-Evolves, handle_login-Evolves, handle_logout-Evolves,
  handle_exit-Evolves,
}
use client_server_signaling.Server.Call.Stores.{Fair, handle_call-Evolves}
use client_server_signaling.Server.Loop.{
  Round, dispatch, round, run_rounds, client_handler, then_do, Flow-cases, dispatch_cases, on_recv,
}

-- What `r` leaves of the store, if it is no fault.
abbrev Leads : UserStore → Result Turn → Type 0
Leads users r = (t : Turn) → r ≡ ok t → Evolves users t.users

pub dispatch-Evolves :
    (env : Env) (s : Session) (users : UserStore) (text : Text)
    → Fair env
    → Leads users (dispatch env s users text)
dispatch-Evolves env s users text f =
    dispatch_cases (Leads users) env s users text (handle_client-Evolves env s users text)
      (handle_signup-Evolves env s users text) (handle_login-Evolves env s users text)
      (λ t. handle_call-Evolves env s users text t f) (handle_logout-Evolves env s users text)
      (handle_exit-Evolves env s users text)
      (λ t h. let e : t.users ≡ users = ground arith in rw e (Evolves-refl users))

-- Other threads run the same code.
pub record IsFair (r : Round) : Type 0 where
  pub others : All FromServer r.others
  pub env : Fair r.env

after_recv-Evolves :
    (env : Env) (s : Session) (users : UserStore) (m : Result Text)
    → Fair env
    → Leads users (m >>= dispatch env s users)
after_recv-Evolves env s users (ok text) f = dispatch-Evolves env s users text f
after_recv-Evolves env s users (err e) f = λ t h. absurd (ground arith)

received-Evolves :
    (still : Bool) (o : Option Text) (env : Env) (s : Session) (users : UserStore)
    → Fair env
    → Leads users (on_recv still o env s users)
unfolding on_recv
received-Evolves still none env s users f =
    λ t h. let e : t.users ≡ users = ground arith in rw e (Evolves-refl users)
received-Evolves false (some bytes) env s users f =
    λ t h. let e : t.users ≡ users = ground arith in rw e (Evolves-refl users)
received-Evolves true (some bytes) env s users f =
    after_recv-Evolves env s users (read_buffer socket_buffer_size bytes) f

round-Evolves :
    (r : Round) (s : Session) (users : UserStore) → IsFair r → Leads users (round r s users)
unfolding round
round-Evolves r s users f = elim (Bool-cases r.running) [
  | inl e ↦ λ t h.
      Evolves-trans users mid t.users (Evolves-apply_all r.others users f.others)
        (received-Evolves r.still_running r.received r.env s mid f.env t (ground arith))
  | inr e ↦ λ t h.
      let q : t.users ≡ mid = ground arith in rw q (Evolves-apply_all r.others users f.others)
]
  where
    mid : UserStore
    mid = apply_all r.others users

-- Whatever a thread is sent, and whatever fair other threads do, the store that it leaves is what a
-- sequence of the store's operations, every sign-up with its flag set, makes of the one it found.
pub run_rounds-Evolves :
    (rs : List Round) (s : Session) (users : UserStore) (t : Turn)
    → All IsFair rs
    → run_rounds rs s users ≡ ok t
    → Evolves users t.users
unfolding run_rounds
run_rounds-Evolves [] s users t f h =
    let e : t.users ≡ users = ground arith in rw e (Evolves-refl users)
run_rounds-Evolves (r ∷ rs) s users t f h =
    let (u, e, h') = >>=-eq-ok (round r s users) _ h in
    let first = round-Evolves r s users f.0 u e in
    elim (Flow-cases u.flow) [
      | inl ends ↦ let q : t.users ≡ u.users = ground arith in rw q first
      | inr goes ↦
          let rest : then_do u (run_rounds rs u.session u.users) ≡ ok t = ground arith in
          let (v, e', h'') = >>=-eq-ok (run_rounds rs u.session u.users) _ rest in
          let q : t.users ≡ v.users = ground arith in
          rw q (
            Evolves-trans users u.users v.users first
              (run_rounds-Evolves rs u.session u.users v f.1 e'))
    ]

-- From an empty store, any run of a thread leaves a store in which `isLogin` is defined at every
-- name.
pub client_handler-is_login :
    (socket : ℤ) (rs : List Round) (t : Turn) (name : Text)
    → All IsFair rs
    → client_handler socket rs empty ≡ ok t
    → (b : Bool) × (is_login name t.users ≡ ok b)
unfolding client_handler
client_handler-is_login socket rs t name f h =
    Evolves-is_login t.users name (run_rounds-Evolves rs (initial socket) empty t f h)

-- A user that a thread has found in the store is there after any run of the thread.
pub run_rounds-has_user :
    (rs : List Round) (s : Session) (users : UserStore) (t : Turn) (name : Text)
    → All IsFair rs
    → run_rounds rs s users ≡ ok t
    → has_user name users ≡ true
    → has_user name t.users ≡ true
run_rounds-has_user rs s users t name f h =
    Evolves-has_user users t.users name (run_rounds-Evolves rs s users t f h)
