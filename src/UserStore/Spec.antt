-- ===== src/UserStore/Spec.antt =====
-- The store as clients may think of it: a function from names to users. Each operation of the
-- hash map implements the one on functions.
use client_server_signaling.Base.{
  ◌≡◌, ◌≢◌, refl, ap, ◌∙◌, fun_ext, arith, Text, text_eq, text_eq_iff, text_eq_refl, true, false,
  Option, none, some, List, [], ◌∷◌, if◌then◌else◌, ◌↔◌, inl, inr, Option-cases, All,
}
use client_server_signaling.User.{User, set_islogin}
use client_server_signaling.Fault.{ok}
use client_server_signaling.UserStore.{
  UserStore, find, login_user, is_login, StoreOp, adds, logins, logs_out, apply, apply_all,
}
use client_server_signaling.UserStore.Lookup.{
  or_default, find-modify, find-add_user, find-log_out_user,
}

abbrev pub Accounts : Type 0
Accounts = Text → Option User

abbrev pub view : UserStore → Accounts
view users = λ j. find j users

abbrev put : Text → User → Accounts → Accounts
put k u m = λ j. if text_eq k j then some u else m j

-- Sign up overwrites; a login needs the password; a logout makes up what is missing.
unfoldable pub spec_apply : StoreOp → Accounts → Accounts
spec_apply (adds u) m = put u.username u m
spec_apply (logins name password) m = elim (m name) [
  | none ↦ m
  | some it ↦ if text_eq it.password password then put name (set_islogin (some true) it) m else m
]
spec_apply (logs_out name) m = put name (set_islogin (some false) (or_default (m name))) m

pub spec_run : List StoreOp → Accounts → Accounts
spec_run [] m = m
spec_run (op ∷ ops) m = spec_run ops (spec_apply op m)

login-view :
    (name password j : Text) (users : UserStore)
    → find j (login_user name password users).0 ≡ spec_apply (logins name password) (view users) j
unfolding login_user spec_apply
login-view name password j users =
    ground (arith, find-modify name j (set_islogin (some true)) users)

pub view-apply :
    (op : StoreOp) (users : UserStore) → view (apply op users) ≡ spec_apply op (view users)
unfolding apply spec_apply
view-apply (adds u) users = fun_ext λ j. find-add_user u j users
view-apply (logins name password) users = fun_ext λ j. login-view name password j users
view-apply (logs_out name) users = fun_ext λ j. find-log_out_user name j users

-- Any sequence of operations on the hash map shows, at every name, what the same sequence on
-- functions from names to users gives.
pub view-apply_all :
    (ops : List StoreOp) (users : UserStore)
    → view (apply_all ops users) ≡ spec_run ops (view users)
unfolding apply_all spec_run
view-apply_all [] users = refl
view-apply_all (op ∷ ops) users =
    view-apply_all ops (apply op users) ∙ ap (spec_run ops) (view-apply op users)

-- The name whose entry an operation may change.
abbrev pub subject : StoreOp → Text
subject (adds u) = u.username
subject (logins name password) = name
subject (logs_out name) = name

pub find-apply_ne :
    (op : StoreOp) (j : Text) (users : UserStore)
    → subject op ≢ j
    → find j (apply op users) ≡ find j users
unfolding apply login_user
find-apply_ne (adds u) j users h = ground (arith, find-add_user u j users, text_eq_iff u.username j)
find-apply_ne (logins n p) j users h =
    ground (arith, find-modify n j (set_islogin (some true)) users, text_eq_iff n j)
find-apply_ne (logs_out n) j users h = ground (arith, find-log_out_user n j users, text_eq_iff n j)

pub find-apply_all_ne :
    (ops : List StoreOp) (j : Text) (users : UserStore)
    → All (λ op. subject op ≢ j) ops
    → find j (apply_all ops users) ≡ find j users
unfolding apply_all
find-apply_all_ne [] j users h = refl
find-apply_all_ne (op ∷ ops) j users h =
    find-apply_all_ne ops j (apply op users) h.1 ∙ find-apply_ne op j users h.0

-- A login succeeds exactly when the user exists with that password.
pub login_user-true_iff :
    (name password : Text) (users : UserStore)
    → ((login_user name password users).1 ≡ true)
      ↔ ((u : User) × (find name users ≡ some u) × (u.password ≡ password))
unfolding login_user
login_user-true_iff name password users = elim (Option-cases (find name users)) [
  | inl e ↦ (λ h. absurd (ground arith), λ h. absurd (ground arith))
  | inr (u, e) ↦ (
    λ h. (u, e, ground (arith, text_eq_iff u.password password)),
    λ h. ground (arith, text_eq_iff u.password password, h.1, h.2),
  )
]

-- After a sign-up, whatever is done to other names, a login of that name succeeds exactly with the
-- password of the sign-up, and the name is then logged in; with another password nothing changes.
pub login-after-add_user :
    (u : User) (ops : List StoreOp) (password : Text) (users : UserStore)
    → All (λ op. subject op ≢ u.username) ops
    → let s = apply_all ops (apply (adds u) users) in
      let r = login_user u.username password s in
      (r.1 ≡ text_eq u.password password)
      × (r.1 ≡ true → is_login u.username r.0 ≡ ok true)
      × (r.1 ≡ false → r.0 ≡ s)
unfolding apply login_user is_login
login-after-add_user u ops password users h =
    let s = apply_all ops (apply (adds u) users) in
    let there : find u.username s ≡ some u =
      find-apply_all_ne ops u.username _ h
      ∙ ground (arith, find-add_user u u.username users, text_eq_refl u.username) in
    ground (
      arith,
      there,
      find-modify u.username u.username (set_islogin (some true)) s,
      text_eq_refl u.username,
    )
