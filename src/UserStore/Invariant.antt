-- ===== src/UserStore/Invariant.antt =====
-- What holds of every store that the server can build.
use client_server_signaling.Base.{
  ◌≡◌, ◌≢◌, arith, Text, Bool, true, false, none, some, List, [], ◌∷◌, inl, inr, Option-cases, All,
}
use client_server_signaling.User.{User, set_islogin}
use client_server_signaling.Fault.{ok}
use client_server_signaling.UserStore.{
  UserStore, empty, find, login_user, has_user, is_login, get_user, StoreOp, adds, logins, logs_out,
  apply, apply_all, determined,
}
use client_server_signaling.UserStore.Lookup.{find-modify, find-add_user, find-log_out_user}

-- `addUser` is only called with a user whose flag is set.
abbrev pub FromServer : StoreOp → Type 0
FromServer (adds u) = (b : Bool) × (u.islogin ≡ some b)
FromServer _ = Unit

pub record IsDetermined (users : UserStore) : Type 0 where
  pub at_name : (j : Text) (u : User) → find j users ≡ some u → u.islogin ≢ none

apply-IsDetermined :
    (op : StoreOp) (users : UserStore)
    → FromServer op
    → IsDetermined users
    → IsDetermined (apply op users)
unfolding apply login_user
apply-IsDetermined (adds u) users (b, e) h = record {
  at_name = λ j v p. ground (arith, find-add_user u j users, h.at_name j v);
}
apply-IsDetermined (logins n p) users f h = record {
  at_name = λ j v q. ground (arith, find-modify n j (set_islogin (some true)) users, h.at_name j v);
}
apply-IsDetermined (logs_out n) users f h = record {
  at_name = λ j v p. ground (arith, find-log_out_user n j users, h.at_name j v);
}

apply_all-IsDetermined :
    (ops : List StoreOp) (users : UserStore)
    → All FromServer ops
    → IsDetermined users
    → IsDetermined (apply_all ops users)
unfolding apply_all
apply_all-IsDetermined [] users f h = h
apply_all-IsDetermined (op ∷ ops) users f h =
    apply_all-IsDetermined ops (apply op users) f.1 (apply-IsDetermined op users f.0 h)

empty-IsDetermined : IsDetermined empty
unfolding find
empty-IsDetermined = record { at_name = λ j u p. cc }

is_login-determined :
    (name : Text) (users : UserStore)
    → IsDetermined users
    → (b : Bool) × (is_login name users ≡ ok b)
unfolding is_login
is_login-determined name users h = elim (Option-cases (find name users)) [
  | inl e ↦ (false, ground arith)
  | inr (u, e) ↦ elim (Option-cases u.islogin) [
    | inl n ↦ absurd (h.at_name name u e n)
    | inr (b, l) ↦ (b, rw (e, is_login) (rw (l, determined)))
  ]
]

-- In every store that the server builds, `isLogin` reads a flag that has been set: it returns a
-- Boolean and no undefined value, also for an entry that a logout has made up.
pub is_login_total :
    (ops : List StoreOp) (name : Text)
    → All FromServer ops
    → (b : Bool) × (is_login name (apply_all ops empty) ≡ ok b)
is_login_total ops name f =
    is_login-determined name _ (apply_all-IsDetermined ops empty f empty-IsDetermined)

has_user-apply :
    (op : StoreOp) (name : Text) (users : UserStore)
    → has_user name users ≡ true
    → has_user name (apply op users) ≡ true
unfolding apply login_user has_user
has_user-apply (adds u) name users h = ground (arith, find-add_user u name users)
has_user-apply (logins n p) name users h =
    ground (arith, find-modify n name (set_islogin (some true)) users)
has_user-apply (logs_out n) name users h = ground (arith, find-log_out_user n name users)

-- A user that exists still exists after any operations of any threads.
pub has_user-apply_all :
    (ops : List StoreOp) (name : Text) (users : UserStore)
    → has_user name users ≡ true
    → has_user name (apply_all ops users) ≡ true
unfolding apply_all
has_user-apply_all [] name users h = h
has_user-apply_all (op ∷ ops) name users h =
    has_user-apply_all ops name (apply op users) (has_user-apply op name users h)

-- `isLogin` holds of users that exist only.
pub has_user_of_is_login :
    (name : Text) (users : UserStore) → is_login name users ≡ ok true → has_user name users ≡ true
unfolding is_login has_user
has_user_of_is_login name users h = ground arith

pub get_user_of_has_user :
    (name : Text) (users : UserStore)
    → has_user name users ≡ true
    → (u : User) × (get_user name users ≡ some u)
unfolding has_user get_user
get_user_of_has_user name users h = ground arith
