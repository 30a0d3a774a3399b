-- ===== src/Server/Commands/Replies.antt =====
-- SIGNUP, LOGIN and LOGOUT as a client meets them: what they store, and what they answer.
use client_server_signaling.Base.{
  ◌<◌, ◌≡◌, ◌≢◌, refl, arith, Text, codes, text_eq_refl, text_eq_iff, false, ◌&&◌, some, [], ◌∷◌,
  ◌++◌, if◌then◌else◌, ltb, length, lt→ltb, inl, inr,
}
use client_server_signaling.Fault.{Result, ok, err, overflow, ◌>>=◌, Result-cases}
use client_server_signaling.User.{User, user}
use client_server_signaling.UserStore.{UserStore, get_user, add_user, login_user}
use client_server_signaling.UserStore.Lookup.{find-add_user}
use client_server_signaling.Wire.{socket_buffer_size, word_size, scan_two}
use client_server_signaling.Wire.Words.{IsWord, scan_two-words}
use client_server_signaling.Server.Session.{Session, sends, Turn}
use client_server_signaling.Server.Commands.{
  handle_signup, handle_login, signup_reply, login_reply, replies,
}

-- "lit name password"
abbrev pub request : Text → Text → Text → Text
request lit name password = lit ++ (32 ∷ name ++ (32 ∷ password))

abbrev pub with_names : Session → Text → Text → Session
with_names s name password = record s { username = name; password = password }

module _ (s : Session) (users : UserStore) (name password : Text) (hn : IsWord name)
    (hp : IsWord password) where
  -- A SIGNUP whose name or password has 50 bytes or more is written past the end of its array;
  -- any other stores the user, whether or not the name was taken, and answers.
  pub handle_signup_lem : handle_signup s users (request (codes "SIGNUP") name password) ≡ (
      if ltb (length name) word_size && ltb (length password) word_size
      then ok (
          replies
            (with_names s name password)
            (add_user (user name password false s.client_socket_fd) users)
            signup_reply)
      else err overflow)
  unfolding handle_signup
  handle_signup_lem =
      rw (scan_two-words (codes "SIGNUP") word_size name password hn hp, handle_signup)
        (ground arith)

  pub handle_login_lem : handle_login s users (request (codes "LOGIN") name password) ≡ (
      if ltb (length name) word_size && ltb (length password) word_size
      then ok (replies (with_names s name password) (login_user name password users).0 login_reply)
      else err overflow)
  unfolding handle_login
  handle_login_lem =
      rw (scan_two-words (codes "LOGIN") word_size name password hn hp, handle_login) (ground arith)

-- What a turn shows to its client: everything but the store.
abbrev pub shown : Result Turn → Result Turn
shown r = do t ← r; ok (record t { users = [] })

-- The answer to a LOGIN, and the state of the session after it, do not depend on the store: a
-- wrong password and an unknown name are answered like a right one.
pub handle_login_blind :
    (s : Session) (users users' : UserStore) (text : Text)
    → shown (handle_login s users text) ≡ shown (handle_login s users' text)
unfolding handle_login
handle_login_blind s users users' text =
    elim (Result-cases (scan_two (codes "LOGIN") word_size text)) [
      | inl (p, e) ↦ rw (e, handle_login)
      | inr (f, e) ↦ rw (e, handle_login)
    ]

-- A SIGNUP that fits its arrays always succeeds, a name that is taken included: the entry is then
-- the new user, logged out, with the session's socket; no other entry changes, and the client is
-- told of success.
pub handle_signup_stores :
    (s : Session) (users : UserStore) (name password : Text)
    → IsWord name
    → IsWord password
    → length name < word_size
    → length password < word_size
    → (t : Turn) × (handle_signup s users (request (codes "SIGNUP") name password) ≡ ok t)
      × (get_user name t.users ≡ some (user name password false s.client_socket_fd))
      × ((j : Text) → j ≢ name → get_user j t.users ≡ get_user j users)
      × (t.actions ≡ sends s.client_socket signup_reply socket_buffer_size ∷ [])
unfolding get_user
handle_signup_stores s users name password hn hp ln lp = (
  replies (with_names s name password) (add_user new users) signup_reply,
  rw (handle_signup_lem s users name password hn hp, lt→ltb _ _ ln, lt→ltb _ _ lp),
  ground (arith, find-add_user new name users, text_eq_refl name),
  λ j h. ground (arith, find-add_user new j users, text_eq_iff name j),
  refl,
)
  where
    new : User
    new = user name password false s.client_socket_fd
