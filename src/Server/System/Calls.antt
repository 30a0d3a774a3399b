-- ===== src/Server/System/Calls.antt =====
-- A CALL while all threads run: the turns between `isLogin` and the INVITE.
use client_server_signaling.Base.{◌≡◌, refl, Text, true, some, List, ◌∷◌, ◌++◌}
use client_server_signaling.Fault.{ok}
use client_server_signaling.User.{User}
use client_server_signaling.UserStore.{UserStore, has_user, get_user}
use client_server_signaling.Server.Session.{Session, Action}
use client_server_signaling.Server.Loop.{Round}
use client_server_signaling.Server.System.{
  Thread, Phase, asked, found, inviting, System, boot, proceed, turn, Reaches,
}
use client_server_signaling.Server.System.Reachable.{
  reachable-Exists, reachable-get_user, Reaches-trans,
}

module _ (session : Session) (actions : List Action) where
  abbrev pub thread_at : Phase → Thread
  thread_at phase = record { session = session; phase = phase; actions = actions }

  asks_has_user :
      (name sdp : Text) (r : Round) (users : UserStore)
      → has_user name users ≡ true
      → turn r (thread_at (asked name sdp)) users ≡ ok (thread_at (found name sdp), users)
  unfolding turn proceed
  asks_has_user name sdp r users h = rw h refl

  asks_get_user :
      (name sdp : Text) (r : Round) (users : UserStore) (u : User)
      → get_user name users ≡ some u
      → turn r (thread_at (found name sdp)) users ≡ ok (thread_at (inviting u name sdp), users)
  unfolding turn proceed
  asks_get_user name sdp r users u g = rw (proceed, g) refl

-- Once `isLogin` has answered true in a CALL, the two later guards stop it at no point, whatever all
-- the threads do before each of them: the turn at `hasUser` goes on to `getUser`, and that one goes
-- on to the INVITE with the user as the store then holds it. Neither sends anything, and neither
-- changes the store.
pub reachable-call_made :
    (s v : System) (before later before' later' : List Thread) (session : Session)
    (actions : List Action) (name sdp : Text) (r r' : Round)
    → Reaches boot s
    → s.threads ≡ before ++ thread_at session actions (asked name sdp) ∷ later
    → Reaches s v
    → v.threads ≡ before' ++ thread_at session actions (found name sdp) ∷ later'
    → (turn r (thread_at session actions (asked name sdp)) s.users
        ≡ ok (thread_at session actions (found name sdp), s.users))
      × ((u : User) × (get_user name v.users ≡ some u)
          × (turn r' (thread_at session actions (found name sdp)) v.users
              ≡ ok (thread_at session actions (inviting u name sdp), v.users)))
reachable-call_made s v before later before' later' session actions name sdp r r' rs e rv e' =
    let there = reachable-Exists s before later _ rs e in
    let (u, g) =
      reachable-get_user v before' later' (thread_at session actions (found name sdp)) name sdp
        (Reaches-trans boot s v rs rv) e' refl in
    (
      asks_has_user session actions name sdp r s.users there,
      (u, g, asks_get_user session actions name sdp r' v.users u g),
    )
