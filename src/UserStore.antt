-- ===== src/UserStore.antt =====
-- src/UserStore.cpp: the users by name, and the operations on them. The hash map is a list of
-- pairs; nothing in the program iterates over it. Each locked method is one step; `logOutUser`,
-- which takes no lock, is one step too.
pub mod Lookup
pub mod Logout
pub mod Spec
pub mod Unordered
pub mod Invariant
pub mod Evolves
use client_server_signaling.Base.{
  Text, text_eq, Bool, true, false, Option, none, some, List, [], ◌∷◌, if◌then◌else◌,
}
use client_server_signaling.Fault.{Result, ok, err, uninitialised}
use client_server_signaling.User.{
  User, default_user, set_username, set_password, set_islogin, set_socket_fd,
}

abbrev pub UserStore : Type 0
UserStore = List (Text × User)

abbrev pub empty : UserStore
empty = []

-- `users.find(name)`
unfoldable pub find : Text → UserStore → Option User
find name [] = none
find name ((j, u) ∷ users) = if text_eq j name then some u else find name users

-- A write through `users[name]`, which first inserts `User()` if the name is missing.
unfoldable pub modify : Text → (User → User) → UserStore → UserStore
modify name f [] = (name, f default_user) ∷ []
modify name f ((j, u) ∷ users) =
    if text_eq j name then (j, f u) ∷ users else (j, u) ∷ modify name f users

unfoldable pub add_user : User → UserStore → UserStore
add_user u users = modify u.username (set_socket_fd u.socket_fd) (
    modify u.username (set_islogin u.islogin) (
      modify u.username (set_password u.password)
        (modify u.username (set_username u.username) users)))

-- The new store, and whether the login succeeded.
unfoldable pub login_user : Text → Text → UserStore → UserStore × Bool
login_user name password users = elim (find name users) [
  | none ↦ (users, false)
  | some it ↦
      if text_eq it.password password
      then (modify name (set_islogin (some true)) users, true)
      else (users, false)
]

unfoldable pub log_out_user : Text → UserStore → UserStore
log_out_user name = modify name (set_islogin (some false))

unfoldable pub has_user : Text → UserStore → Bool
has_user name users = elim (find name users) [ none ↦ false | some _ ↦ true ]

-- Converts `islogin_` to `bool`, which is undefined while nothing has set it.
abbrev pub determined {ℓ} : {A : Type ℓ} → Option A → Result A
determined none = err uninitialised
determined (some a) = ok a

unfoldable pub is_login : Text → UserStore → Result Bool
is_login name users = elim (find name users) [ none ↦ ok false | some it ↦ determined it.islogin ]

-- `none` is the exception `runtime_error("User not found")`.
unfoldable pub get_user : Text → UserStore → Option User
get_user name users = find name users

-- The calls that change the store.
pub data StoreOp : Type 0 where
  adds : User → StoreOp
  logins : Text → Text → StoreOp
  logs_out : Text → StoreOp

unfoldable pub apply : StoreOp → UserStore → UserStore
apply (adds u) users = add_user u users
apply (logins name password) users = (login_user name password users).0
apply (logs_out name) users = log_out_user name users

-- What other threads do, in the order of their locks.
unfoldable pub apply_all : List StoreOp → UserStore → UserStore
apply_all [] users = users
apply_all (op ∷ ops) users = apply_all ops (apply op users)
