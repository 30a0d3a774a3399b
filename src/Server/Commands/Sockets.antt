-- ===== src/Server/Commands/Sockets.antt =====
-- The sockets that a branch uses, and the ones that it leaves in the store. `Branches` has this of
-- each branch.
pub mod Branches
use client_server_signaling.Base.{
  ℕ, ◌<◌, length, ◌≡◌, refl, arith, Text, codes, Bool, false, true, some, List, [], ◌∷◌, ◌++◌,
  subst, sym, ◌∙◌, text_eq, Bool-cases, Option-cases, if_cases, ◌⊎◌, inl, inr, ℤ, minus_one, pos,
  All, All-append, int_eq, if◌then◌else◌,
}
use client_server_signaling.Fault.{Result, ok, err, ◌>>=◌}
use client_server_signaling.User.{User, user, set_islogin}
use client_server_signaling.UserStore.{UserStore, find, modify, add_user, login_user, log_out_user}
use client_server_signaling.UserStore.Lookup.{find-modify, find-add_user}
use client_server_signaling.Wire.{scan_two, word_size, socket_buffer_size}
use client_server_signaling.Wire.{c_string}
use client_server_signaling.Server.Session.{
  Session, Env, Action, connects, sends, receives, closes, goes_on, breaks, Turn,
}
use client_server_signaling.Server.Commands.{
  handle_client, handle_signup, handle_login, handle_logout, handle_exit, scan_client,
  connect_to_client, connected, hello,
}
use client_server_signaling.Server.Commands.Closing.{scan_client-same_socket}

-- `connect` has been called on the socket.
abbrev pub Opened : ℤ → List Action → Type 0
Opened fd [] = ⊥
Opened fd (connects g ip port ∷ acts) = (fd ≡ g) ⊎ Opened fd acts
Opened fd (sends g bytes size ∷ acts) = Opened fd acts
Opened fd (receives g ∷ acts) = Opened fd acts
Opened fd (closes g ∷ acts) = Opened fd acts

pub Opened-left : (fd : ℤ) (xs ys : List Action) → Opened fd xs → Opened fd (xs ++ ys)
Opened-left fd [] ys h = elim h [ ]
Opened-left fd (connects g ip port ∷ xs) ys (inl e) = inl e
Opened-left fd (connects g ip port ∷ xs) ys (inr h) = inr (Opened-left fd xs ys h)
Opened-left fd (sends g bytes size ∷ xs) ys h = Opened-left fd xs ys h
Opened-left fd (receives g ∷ xs) ys h = Opened-left fd xs ys h
Opened-left fd (closes g ∷ xs) ys h = Opened-left fd xs ys h

pub Opened-right : (fd : ℤ) (xs ys : List Action) → Opened fd ys → Opened fd (xs ++ ys)
Opened-right fd [] ys h = h
Opened-right fd (connects g ip port ∷ xs) ys h = inr (Opened-right fd xs ys h)
Opened-right fd (sends g bytes size ∷ xs) ys h = Opened-right fd xs ys h
Opened-right fd (receives g ∷ xs) ys h = Opened-right fd xs ys h
Opened-right fd (closes g ∷ xs) ys h = Opened-right fd xs ys h

-- A packet of that size holds the end of its text.
abbrev pub EndsIn : ℕ → Text → Type 0
EndsIn size bytes = length (c_string bytes) < size

module _ (K : ℤ → Type 0) where
  -- A call on the thread's own connection, or on a socket of the kind `K`. What is sent has its
  -- end in the packet.
  abbrev pub Aimed : ℤ → Action → Type 0
  Aimed socket (sends fd bytes size) = ((fd ≡ socket) ⊎ K fd) × EndsIn size bytes
  Aimed socket (receives fd) = K fd
  Aimed socket (connects fd ip port) = Unit
  Aimed socket (closes fd) = fd ≡ socket

  -- Every user's socket is of the kind.
  abbrev pub Stored : UserStore → Type 0
  Stored users =
      (j : Text) (u : User) (fd : ℤ) → find j users ≡ some u → u.socket_fd ≡ some fd → K fd

  pub Stored-add_user :
      (name password : Text) (fd : ℤ) (users : UserStore)
      → K fd
      → Stored users
      → Stored (add_user (user name password false fd) users)
  Stored-add_user name password fd users k h j u g e e' = elim (Bool-cases (text_eq name j)) [
    | inl q ↦
        let same : fd ≡ g = ground (arith, find-add_user (user name password false fd) j users) in
        subst K same k
    | inr q ↦ h j u g (ground (arith, find-add_user (user name password false fd) j users)) e'
  ]

  -- A write that leaves the socket as it is.
  Stored-set_islogin :
      (name : Text) (b : Bool) (users : UserStore)
      → Stored users
      → Stored (modify name (set_islogin (some b)) users)
  Stored-set_islogin name b users h j u g e e' =
      let found = sym (find-modify name j (set_islogin (some b)) users) ∙ e in
      elim (Bool-cases (text_eq name j)) [
        | inr q ↦ h j u g (ground arith) e'
        | inl q ↦ elim (Option-cases (find name users)) [
          | inl none_there ↦ absurd (ground arith)
          | inr (v, there) ↦ h name v g there (ground arith)
        ]
      ]

  pub Stored-login_user :
      (name password : Text) (users : UserStore)
      → Stored users
      → Stored (login_user name password users).0
  unfolding login_user
  Stored-login_user name password users h = elim (Option-cases (find name users)) [
    | inl e ↦ rw (login_user, e) h
    | inr (u, e) ↦
        rw (login_user, e)
          (if_cases (λ (r : UserStore × Bool). Stored r.0) (text_eq u.password password) _ _
            (Stored-set_islogin name true users h) h)
  ]

  pub Stored-log_out_user :
      (name : Text) (users : UserStore) → Stored users → Stored (log_out_user name users)
  unfolding log_out_user
  Stored-log_out_user name users h = Stored-set_islogin name false users h

  -- A branch that begins with a session and comes to its end.
  pub record IsFine (s : Session) (t : Turn) : Type 0 where
    pub aimed : All (Aimed s.client_socket) t.actions
    pub stored : Stored t.users
    pub same_socket : t.session.client_socket ≡ s.client_socket
    pub owned :
        (t.flow ≡ breaks)
        ⊎ ((t.session.client_socket_fd ≡ s.client_socket_fd)
            ⊎ Opened t.session.client_socket_fd t.actions)

  -- The branch is fine if the session's other socket is of the kind, and so are the users' and
  -- those that it connects.
  abbrev pub Fair : Session → UserStore → Result Turn → Type 0
  Fair s users r =
      (t : Turn)
      → r ≡ ok t
      → K s.client_socket_fd
      → Stored users
      → ((fd : ℤ) → Opened fd t.actions → K fd)
      → IsFine s t

  pub Fair-ok :
      (s : Session) (users : UserStore) (u : Turn)
      → (K s.client_socket_fd → Stored users → ((fd : ℤ) → Opened fd u.actions → K fd) → IsFine s u)
      → Fair s users (ok u)
  Fair-ok s users u h t e =
      let same : u ≡ t = cc e in
      subst
        (λ v.
          K s.client_socket_fd
          → Stored users
          → ((fd : ℤ) → Opened fd v.actions → K fd)
          → IsFine s v)
        same h

  pub Fair-bind {ℓ} :
      {A : Type ℓ} (s : Session) (users : UserStore) (m : Result A) (f : A → Result Turn)
      → ((a : A) → m ≡ ok a → Fair s users (f a))
      → Fair s users (m >>= f)
  Fair-bind s users (ok a) f h = h a refl
  Fair-bind s users (err e) f h = λ t q. absurd (ground arith)
