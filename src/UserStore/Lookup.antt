-- ===== src/UserStore/Lookup.antt =====
-- What a lookup finds after each operation of the store.
use client_server_signaling.Base.{
  ◌≡◌, refl, arith, Text, text_eq, text_eq_iff, text_eq_refl, false, Option, none, some, [], ◌∷◌,
  if◌then◌else◌,
}
use client_server_signaling.User.{User, default_user, set_islogin}
use client_server_signaling.UserStore.{UserStore, find, modify, add_user, log_out_user}

-- `users[name]`: what is there, or `User()`.
abbrev pub or_default : Option User → User
or_default none = default_user
or_default (some u) = u

pub find-modify :
    (k j : Text) (f : User → User) (users : UserStore)
    → find j (modify k f users)
      ≡ (if text_eq k j then some (f (or_default (find k users))) else find j users)
unfolding find modify
find-modify k j f [] = refl
find-modify k j f ((i, u) ∷ users) = ground (
  arith,
  text_eq_iff k j,
  text_eq_iff i k,
  text_eq_iff i j,
  text_eq_refl k,
  find-modify k j f users,
)

pub find-modify_self :
    (k : Text) (f : User → User) (users : UserStore)
    → find k (modify k f users) ≡ some (f (or_default (find k users)))
find-modify_self k f users = rw (find-modify, text_eq_refl)

-- Two writes to one entry are one.
pub modify-modify :
    (k : Text) (f g : User → User) (users : UserStore)
    → modify k g (modify k f users) ≡ modify k (λ u. g (f u)) users
unfolding modify
modify-modify k f g [] = rw text_eq_refl
modify-modify k f g ((i, u) ∷ users) = ground (arith, modify-modify k f g users)

pub find-add_user :
    (u : User) (j : Text) (users : UserStore)
    → find j (add_user u users) ≡ (if text_eq u.username j then some u else find j users)
unfolding add_user
find-add_user u j users = simp (modify-modify, find-modify)

pub find-log_out_user :
    (k j : Text) (users : UserStore)
    → find j (log_out_user k users) ≡ (
        if text_eq k j
        then some (set_islogin (some false) (or_default (find k users)))
        else find j users)
unfolding log_out_user
find-log_out_user k j users = find-modify k j _ users
