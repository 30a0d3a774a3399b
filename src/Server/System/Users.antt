-- ===== src/Server/System/Users.antt =====
-- What a turn of a thread does to the store, and to the callee of a CALL under way.
use client_server_signaling.Base.{
  ◌≡◌, refl, subst, Text, codes, Bool, true, false, Option, none, some, List, if◌then◌else◌, inl,
  inr, Bool-cases, if_cases,
}
use client_server_signaling.Fault.{>>=-cases, Result, ok, err, ◌>>=◌}
use client_server_signaling.UserStore.{UserStore, apply_all, is_login, has_user}
use client_server_signaling.UserStore.Invariant.{has_user_of_is_login, get_user_of_has_user}
use client_server_signaling.UserStore.Evolves.{Evolves, Evolves-refl, Evolves-has_user}
use client_server_signaling.Wire.{socket_buffer_size, read_buffer, begins}
use client_server_signaling.Server.Session.{Session, Env, Action, Turn}
use client_server_signaling.Server.Call.{parse_call, invite}
use client_server_signaling.Server.Call.Stores.{Fair, invite-users}
use client_server_signaling.Server.Loop.{Round, dispatch, Flow-cases}
use client_server_signaling.Server.Loop.Stores.{dispatch-Evolves}
use client_server_signaling.Server.System.{
  Thread, Phase, receiving, ended, asked, found, inviting, alone, after_turn, ask, serve, receive,
  proceed, turn,
}

-- The callee of a CALL is in the store.
abbrev pub Exists : UserStore → Phase → Type 0
Exists users receiving = Unit
Exists users ended = Unit
Exists users (asked name sdp) = has_user name users ≡ true
Exists users (found name sdp) = has_user name users ≡ true
Exists users (inviting u name sdp) = has_user name users ≡ true

pub Exists-Evolves :
    (users users' : UserStore) (phase : Phase)
    → Evolves users users'
    → Exists users phase
    → Exists users' phase
Exists-Evolves users users' receiving e h = tt
Exists-Evolves users users' ended e h = tt
Exists-Evolves users users' (asked name sdp) e h = Evolves-has_user users users' name e h
Exists-Evolves users users' (found name sdp) e h = Evolves-has_user users users' name e h
Exists-Evolves users users' (inviting u name sdp) e h = Evolves-has_user users users' name e h

-- What a turn leaves behind, if it is no fault.
abbrev Goes : UserStore → Result (Thread × UserStore) → Type 0
Goes users (ok (t, users')) = Evolves users users' × Exists users' t.phase
Goes users (err f) = Unit

Goes-bind {ℓ} :
    {A : Type ℓ} (users : UserStore) (m : Result A) (f : A → Result (Thread × UserStore))
    → ((a : A) → m ≡ ok a → Goes users (f a))
    → Goes users (m >>= f)
Goes-bind users m f h = >>=-cases (Goes users) m f (λ why. tt) h

after_turn-Exists :
    (users : UserStore) (t : Thread) (v : Turn) → Exists users (after_turn t v).phase
unfolding after_turn
after_turn-Exists users t v = elim (Flow-cases v.flow) [ inl e ↦ rw e tt | inr e ↦ rw e tt ]

alone-Fair : (env : Env) → Fair (alone env)
alone-Fair env = record { after_is_login = tt; after_has_user = tt; while_waiting = tt }

ask-Goes :
    (t : Thread) (users : UserStore) (text : Text)
    → t.phase ≡ receiving
    → Goes users (ask t users text)
unfolding ask
ask-Goes t users text p = Goes-bind users (parse_call text) _ λ (name, sdp) _.
    Goes-bind users (is_login name users) _ λ l e. elim (Bool-cases l) [
      | inl q ↦ rw q (Evolves-refl users, has_user_of_is_login name users (rw (e, q)))
      | inr q ↦ rw q (Evolves-refl users, rw p tt)
    ]

serve-Goes :
    (env : Env) (t : Thread) (users : UserStore) (text : Text)
    → t.phase ≡ receiving
    → Goes users (serve env t users text)
unfolding serve
serve-Goes env t users text p =
    if_cases (Goes users) (begins (codes "CALL") text) _ _ (ask-Goes t users text p) (
      Goes-bind users (dispatch (alone env) t.session users text) _ λ v e. (
        dispatch-Evolves (alone env) t.session users text (alone-Fair env) v e,
        after_turn-Exists v.users t v,
      ))

receive-Goes :
    (running : Bool) (received : Option Text) (still : Bool) (env : Env) (t : Thread)
    (users : UserStore)
    → t.phase ≡ receiving
    → Goes users (receive running received still env t users)
unfolding receive
receive-Goes false received still env t users p = (Evolves-refl users, tt)
receive-Goes true none still env t users p = (Evolves-refl users, tt)
receive-Goes true (some bytes) false env t users p = (Evolves-refl users, tt)
receive-Goes true (some bytes) true env t users p =
    Goes-bind users (read_buffer socket_buffer_size bytes) _ λ text _. serve-Goes env t users text p

asked-Goes :
    (s : Session) (actions : List Action) (name sdp : Text) (users : UserStore)
    → Goes users (
        ok (
          record {
            session = s;
            phase = if has_user name users then found name sdp else receiving;
            actions = actions;
          },
          users,
        ))
asked-Goes s actions name sdp users = elim (Bool-cases (has_user name users)) [
  | inl e ↦ rw e (Evolves-refl users, e)
  | inr e ↦ rw e (Evolves-refl users, tt)
]

turn-Goes :
    (r : Round) (s : Session) (phase : Phase) (actions : List Action) (users : UserStore)
    → Exists users phase
    → Goes users (turn r (record { session = s; phase = phase; actions = actions }) users)
unfolding turn proceed apply_all
turn-Goes r s receiving actions users h =
    receive-Goes r.running r.received r.still_running r.env _ users refl
turn-Goes r s ended actions users h = (Evolves-refl users, tt)
turn-Goes r s (asked name sdp) actions users h = asked-Goes s actions name sdp users
turn-Goes r s (found name sdp) actions users h =
    let (u, e) = get_user_of_has_user name users h in rw (Goes, proceed, e) (Evolves-refl users, h)
turn-Goes r s (inviting u name sdp) actions users h =
    Goes-bind users (invite (alone r.env) s users u name sdp) _ λ v e.
      let q : v.users ≡ users = invite-users (alone r.env) s users u name sdp v e in
      (rw q (Evolves-refl users), after_turn-Exists v.users _ v)

module _ (r : Round) (t t' : Thread) (users users' : UserStore) (h : Exists users t.phase)
    (e : turn r t users ≡ ok (t', users')) where
  both : Evolves users users' × Exists users' t'.phase
  both = subst (Goes users) e (turn-Goes r t.session t.phase t.actions users h)

  pub turn-Evolves : Evolves users users'
  turn-Evolves = both.0

  pub turn-Exists : Exists users' t'.phase
  turn-Exists = both.1
