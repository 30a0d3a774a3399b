-- ===== src/Server/System/Reachable.antt =====
-- The invariant of the whole server, and what it gives for every interleaving of the threads.
use client_server_signaling.Base.{
  ◌≡◌, subst, Text, Bool, true, some, List, [], ◌∷◌, ◌++◌, All, All-append, All-focus,
}
use client_server_signaling.Fault.{ok}
use client_server_signaling.User.{User}
use client_server_signaling.UserStore.{UserStore, empty, is_login, has_user, get_user}
use client_server_signaling.UserStore.Invariant.{get_user_of_has_user}
use client_server_signaling.UserStore.Evolves.{
  Evolves, Evolves-refl, Evolves-trans, Evolves-has_user, Evolves-is_login,
}
use client_server_signaling.Server.System.{
  Thread, found, System, boot, new_thread, Step, accepts, runs, Reaches, stays, goes,
}
use client_server_signaling.Server.System.Users.{Exists, Exists-Evolves, turn-Evolves, turn-Exists}

-- The callee of every CALL under way exists.
abbrev AllExist : UserStore → List Thread → Type 0
AllExist users = All (λ t. Exists users t.phase)

AllExist-Evolves :
    (users users' : UserStore) (ts : List Thread)
    → Evolves users users'
    → AllExist users ts
    → AllExist users' ts
AllExist-Evolves users users' [] e h = tt
AllExist-Evolves users users' (t ∷ ts) e h =
    (Exists-Evolves users users' t.phase e h.0, AllExist-Evolves users users' ts e h.1)

record IsSound (s : System) : Type 0 where
  built : Evolves empty s.users
  exist : AllExist s.users s.threads

Step-Evolves : (s t : System) → IsSound s → Step s t → Evolves s.users t.users
Step-Evolves s _ h (accepts socket _) = Evolves-refl s.users
Step-Evolves _ _ h (runs before later t t' users users' r e) =
    turn-Evolves r t t' users users'
      (All-focus (λ t. Exists users t.phase) before t later h.exist).1 e

Step-IsSound : (s t : System) → IsSound s → Step s t → IsSound t
Step-IsSound s _ h (accepts socket _) = record {
  built = h.built;
  exist =
      All-append (λ t. Exists s.users t.phase) s.threads (new_thread socket ∷ []) h.exist (tt, tt);
}
Step-IsSound _ _ h (runs before later t t' users users' r e) =
    let (hb, ht, hl) = All-focus (λ t. Exists users t.phase) before t later h.exist in
    let ev = turn-Evolves r t t' users users' ht e in
    record {
      built = Evolves-trans empty users users' h.built ev;
      exist =
          All-append (λ t. Exists users' t.phase) before (t' ∷ later)
            (AllExist-Evolves users users' before ev hb)
            (turn-Exists r t t' users users' ht e, AllExist-Evolves users users' later ev hl);
    }

boot-IsSound : IsSound boot
boot-IsSound = record { built = Evolves-refl empty; exist = tt }

Reaches-IsSound : (s t : System) → IsSound s → Reaches s t → IsSound t
Reaches-IsSound s _ h (stays _) = h
Reaches-IsSound s _ h (goes _ m t rs st) = Step-IsSound m t (Reaches-IsSound s m h rs) st

Reaches-Evolves : (s t : System) → IsSound s → Reaches s t → Evolves s.users t.users
Reaches-Evolves s _ h (stays _) = Evolves-refl s.users
Reaches-Evolves s _ h (goes _ m t rs st) =
    Evolves-trans s.users m.users t.users (Reaches-Evolves s m h rs)
      (Step-Evolves m t (Reaches-IsSound s m h rs) st)

pub Reaches-trans : (s t u : System) → Reaches s t → Reaches t u → Reaches s u
Reaches-trans s t _ h (stays _) = h
Reaches-trans s t _ h (goes _ m u rs st) = goes s m u (Reaches-trans s t m h rs) st

-- What holds of the callee at a thread's phase.
pub reachable-Exists :
    (s : System) (before later : List Thread) (t : Thread)
    → Reaches boot s
    → s.threads ≡ before ++ t ∷ later
    → Exists s.users t.phase
reachable-Exists s before later t rs e =
    let h = Reaches-IsSound boot s boot-IsSound rs in
    let all = subst (AllExist s.users) e h.exist in
    (All-focus (λ t. Exists s.users t.phase) before t later all).1

-- However the threads of the server interleave, a thread that is about to call `getUser` finds
-- the user: the exception "User not found" is never thrown.
pub reachable-get_user :
    (s : System) (before later : List Thread) (t : Thread) (name sdp : Text)
    → Reaches boot s
    → s.threads ≡ before ++ t ∷ later
    → t.phase ≡ found name sdp
    → (u : User) × (get_user name s.users ≡ some u)
reachable-get_user s before later t name sdp rs e p =
    get_user_of_has_user name s.users
      (subst (Exists s.users) p (reachable-Exists s before later t rs e))

-- However the threads interleave, `isLogin` never reads a flag that no constructor has set.
pub reachable-is_login :
    (s : System) (name : Text) → Reaches boot s → (b : Bool) × (is_login name s.users ≡ ok b)
reachable-is_login s name rs =
    Evolves-is_login s.users name (Reaches-IsSound boot s boot-IsSound rs).built

-- However the threads interleave, a user who is in the store at some time is in it at all later
-- times.
pub reachable-has_user :
    (s t : System) (name : Text)
    → Reaches boot s
    → Reaches s t
    → has_user name s.users ≡ true
    → has_user name t.users ≡ true
reachable-has_user s t name rs rt h =
    Evolves-has_user s.users t.users name
      (Reaches-Evolves s t (Reaches-IsSound boot s boot-IsSound rs) rt) h
