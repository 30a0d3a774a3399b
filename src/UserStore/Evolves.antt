-- ===== src/UserStore/Evolves.antt =====
-- How stores follow one another while the server runs.
use client_server_signaling.Base.{
  ◌≡◌, refl, ◌∙◌, ap, sym, Text, Bool, true, false, List, [], ◌∷◌, ◌++◌, All, All-append, ℤ,
}
use client_server_signaling.Fault.{ok}
use client_server_signaling.User.{user}
use client_server_signaling.UserStore.{
  UserStore, empty, add_user, login_user, log_out_user, has_user, is_login, StoreOp, adds, logins,
  logs_out, apply, apply_all,
}
use client_server_signaling.UserStore.Invariant.{FromServer, is_login_total, has_user-apply_all}

-- The second store is what operations of the server make of the first.
abbrev pub Evolves : UserStore → UserStore → Type 0
Evolves users users' = (ops : List StoreOp) × All FromServer ops × (users' ≡ apply_all ops users)

apply_all-append :
    (xs ys : List StoreOp) (users : UserStore)
    → apply_all (xs ++ ys) users ≡ apply_all ys (apply_all xs users)
unfolding apply_all
apply_all-append [] ys users = refl
apply_all-append (op ∷ xs) ys users = apply_all-append xs ys (apply op users)

pub Evolves-refl : (users : UserStore) → Evolves users users
unfolding apply_all
Evolves-refl users = ([], tt, refl)

pub Evolves-apply_all :
    (ops : List StoreOp) (users : UserStore)
    → All FromServer ops
    → Evolves users (apply_all ops users)
Evolves-apply_all ops users h = (ops, h, refl)

pub Evolves-trans : (a b c : UserStore) → Evolves a b → Evolves b c → Evolves a c
Evolves-trans a b c (xs, fx, ex) (ys, fy, ey) = (
  xs ++ ys,
  All-append FromServer xs ys fx fy,
  ey ∙ ap (apply_all ys) ex ∙ sym (apply_all-append xs ys a),
)

pub Evolves-add_user :
    (name password : Text) (fd : ℤ) (users : UserStore)
    → Evolves users (add_user (user name password false fd) users)
unfolding apply_all apply
Evolves-add_user name password fd users =
    (adds (user name password false fd) ∷ [], ((false, refl), tt), refl)

pub Evolves-login_user :
    (name password : Text) (users : UserStore) → Evolves users (login_user name password users).0
unfolding apply_all apply
Evolves-login_user name password users = (logins name password ∷ [], (tt, tt), refl)

pub Evolves-log_out_user :
    (name : Text) (users : UserStore) → Evolves users (log_out_user name users)
unfolding apply_all apply
Evolves-log_out_user name users = (logs_out name ∷ [], (tt, tt), refl)

pub Evolves-has_user :
    (users users' : UserStore) (name : Text)
    → Evolves users users'
    → has_user name users ≡ true
    → has_user name users' ≡ true
Evolves-has_user users users' name (ops, _, e) h = rw e (has_user-apply_all ops name users h)

pub Evolves-is_login :
    (users : UserStore) (name : Text)
    → Evolves empty users
    → (b : Bool) × (is_login name users ≡ ok b)
Evolves-is_login users name (ops, f, e) = rw e (is_login_total ops name f)
