-- ===== src/Server/System/Shutdown.antt =====
-- The turns of a thread once `signal_handler` has cleared `running`: it finds that when its `recv`
-- returns.
use client_server_signaling.Base.{
  ℕ, ◌+◌, ◌*◌, ◌≤◌, ◌<◌, ◌≡◌, ◌≢◌, refl, subst, ap, arith, Text, Bool, true, false, Option, none,
  some, List, [], ◌∷◌, ◌++◌, length, All, ◌⊎◌, inl, inr, Bool-cases, Option-cases,
}
use client_server_signaling.Fault.{Result, ok, err, ◌>>=◌}
use client_server_signaling.UserStore.{UserStore, has_user, get_user}
use client_server_signaling.Server.Session.{Session, Env, Action, Turn}
use client_server_signaling.Server.Call.{invite}
use client_server_signaling.Server.Loop.{Round, Flow-cases}
use client_server_signaling.Server.System.{
  Phase, receiving, ended, asked, found, inviting, Thread, alone, after_turn, receive, proceed,
  turn,
}

-- How many turns a thread may still take.
abbrev pub rank : Phase → ℕ
rank ended = 0
rank receiving = 1
rank (inviting u name sdp) = 2
rank (found name sdp) = 3
rank (asked name sdp) = 4

-- A turn after the clearing comes nearer to the end, if it is no fault.
abbrev Falls : ℕ → Result (Thread × UserStore) → Type 0
Falls n (err f) = Unit
Falls n (ok (t, users)) = rank t.phase < n

receive-Falls :
    (running : Bool) (received : Option Text) (env : Env) (t : Thread) (users : UserStore)
    → Falls 1 (receive running received false env t users)
unfolding receive
receive-Falls false received env t users = omega arith
receive-Falls true none env t users = omega arith
receive-Falls true (some bytes) env t users = omega arith

after_turn-rank : (t : Thread) (v : Turn) → rank (after_turn t v).phase < 2
unfolding after_turn
after_turn-rank t v = elim (Flow-cases v.flow) [
  | inl e ↦ rw e (omega arith)
  | inr e ↦ rw e (omega arith)
]

invite-Falls : (m : Result Turn) (t : Thread) → Falls 2 (m >>= (λ v. ok (after_turn t v, v.users)))
invite-Falls (err f) t = tt
invite-Falls (ok v) t = after_turn-rank t v

turn-Falls :
    (r : Round) (s : Session) (phase : Phase) (actions : List Action) (users : UserStore)
    → r.still_running ≡ false
    → phase ≢ ended
    → Falls (rank phase) (turn r (record { session = s; phase = phase; actions = actions }) users)
unfolding turn proceed
turn-Falls r s receiving actions users h k = rw h (receive-Falls r.running r.received r.env _ users)
turn-Falls r s ended actions users h k = absurd (k refl)
turn-Falls r s (asked name sdp) actions users h k = elim (Bool-cases (has_user name users)) [
  | inl e ↦ rw e (omega arith)
  | inr e ↦ rw e (omega arith)
]
turn-Falls r s (found name sdp) actions users h k = elim (Option-cases (get_user name users)) [
  | inl e ↦ rw (Falls, proceed, e) (omega arith)
  | inr (u, e) ↦ rw (Falls, proceed, e) (omega arith)
]
turn-Falls r s (inviting u name sdp) actions users h k =
    invite-Falls (invite (alone r.env) s users u name sdp) _

abbrev pub total : List Thread → ℕ
total [] = 0
total (t ∷ ts) = rank t.phase + total ts

rank-le : (phase : Phase) → rank phase ≤ 4
rank-le receiving = omega arith
rank-le ended = omega arith
rank-le (asked name sdp) = omega arith
rank-le (found name sdp) = omega arith
rank-le (inviting u name sdp) = omega arith

pub total-le : (ts : List Thread) → total ts ≤ 4 * length ts
total-le [] = omega arith
total-le (t ∷ ts) = omega (arith, total-le ts, rank-le t.phase)

pub total-focus :
    (before : List Thread) (t t' : Thread) (later : List Thread)
    → rank t'.phase < rank t.phase
    → total (before ++ t' ∷ later) < total (before ++ t ∷ later)
total-focus [] t t' later h = omega arith
total-focus (b ∷ before) t t' later h = omega (arith, total-focus before t t' later h)

pub turn-rank :
    (r : Round) (t t' : Thread) (users users' : UserStore)
    → r.still_running ≡ false
    → t.phase ≢ ended
    → turn r t users ≡ ok (t', users')
    → rank t'.phase < rank t.phase
turn-rank r t t' users users' h k e =
    subst (Falls (rank t.phase)) e (turn-Falls r t.session t.phase t.actions users h k)

-- A thread that has not ended, if there is one.
pub record Open (ts : List Thread) : Type 0 where
  pub before : List Thread
  pub thread : Thread
  pub later : List Thread
  pub place : ts ≡ before ++ thread ∷ later
  pub open_phase : thread.phase ≢ ended

pub ended_cases : (phase : Phase) → (phase ≡ ended) ⊎ (phase ≢ ended)
ended_cases receiving = inr (λ e. ground arith)
ended_cases ended = inl refl
ended_cases (asked name sdp) = inr (λ e. ground arith)
ended_cases (found name sdp) = inr (λ e. ground arith)
ended_cases (inviting u name sdp) = inr (λ e. ground arith)

-- A thread that has ended takes no turn.
pub turn-ended :
    (r : Round) (t t' : Thread) (users users' : UserStore)
    → t.phase ≡ ended
    → turn r t users ≡ ok (t', users')
    → (t' ≡ t) × (users' ≡ users)
unfolding turn proceed
turn-ended r t t' users users' p e = (ground arith, ground arith)

pub Open-cases : (ts : List Thread) → All (λ t. t.phase ≡ ended) ts ⊎ Open ts
Open-cases [] = inl tt
Open-cases (t ∷ ts) = elim (ended_cases t.phase) [
  | inr k ↦ inr (record { before = []; thread = t; later = ts; place = refl; open_phase = k })
  | inl e ↦ elim (Open-cases ts) [
    | inl all ↦ inl (e, all)
    | inr o ↦ inr (record {
      before = t ∷ o.before;
      thread = o.thread;
      later = o.later;
      place = ap (λ us. t ∷ us) o.place;
      open_phase = o.open_phase;
    })
  ]
]
