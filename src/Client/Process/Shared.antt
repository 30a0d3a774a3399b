-- ===== src/Client/Process/Shared.antt =====
-- The listener reads the client's own description and writes the other side's, and nothing else of
-- what it shares with the menu.
use client_server_signaling.Base.{
  ◌≡◌, refl, ◌∙◌, ap, subst, arith, Text, codes, Bool, true, false, Option, none, some, List, [],
  ◌∷◌, ◌++◌, inl, inr, drop, length, if◌then◌else◌,
}
use client_server_signaling.Fault.{Result, ok, err, ◌>>=◌, Result-cases}
use client_server_signaling.Wire.{
  socket_buffer_size, c_string, read_buffer, scan_named, size_sub, strncpy, sprintf,
}
use client_server_signaling.Client.State.{Client}
use client_server_signaling.Client.Listener.{
  Peer, Heard, Listening, listens, stops, described, handle_invite, handle_accept, hear, listen,
}
use client_server_signaling.Client.Process.Remote.{with_remote}

-- Another client, with the descriptions of this one.
abbrev pub shared : Client → Client → Client
shared c d = record d { local_sdp = c.local_sdp; remote_sdp = c.remote_sdp }

-- What was heard, by that one.
abbrev pub heard_by : Client → Result Heard → Result Heard
heard_by d r = do h ← r; ok (record h { client = with_remote h.client.remote_sdp d })

-- Of two chains that begin alike.
heard_by-bind {ℓ} :
    {A : Type ℓ} (d : Client) (m : Result A) (f g : A → Result Heard)
    → ((a : A) → f a ≡ heard_by d (g a))
    → m >>= f ≡ heard_by d (m >>= g)
heard_by-bind d (err why) f g h = refl
heard_by-bind d (ok a) f g h = h a

-- How the loop goes on after a message.
abbrev pub then_listens : Bool → Result Heard → Heard → Result Heard
then_listens still rest h = elim h.next [
  | stops ↦ ok h
  | listens ↦
      if still
      then (do u ← rest; ok (record u { events = h.events ++ u.events }))
      else ok (record h { next = stops })
]

then_listens-heard_by :
    (d : Client) (still : Bool) (rest : Result Heard) (h : Heard)
    → then_listens still
        (heard_by (with_remote h.client.remote_sdp d) rest)
        (record h { client = with_remote h.client.remote_sdp d })
      ≡ heard_by d (then_listens still rest h)
then_listens-heard_by d still rest h = go still rest h.next
  where
    go :
        (still : Bool) (rest : Result Heard) (next : Listening)
        → then_listens still
            (heard_by (with_remote h.client.remote_sdp d) rest)
            (record { client = with_remote h.client.remote_sdp d; events = h.events; next = next })
          ≡ heard_by d (then_listens still rest (record h { next = next }))
    go still rest stops = refl
    go false rest listens = refl
    go true (ok u) listens = refl
    go true (err f) listens = refl

module _ (p : Peer) where
  handle_invite-shared :
      (c d : Client) (text : Text)
      → handle_invite p (shared c d) text ≡ heard_by (shared c d) (handle_invite p c text)
  unfolding handle_invite
  handle_invite-shared c d text =
      heard_by-bind (shared c d) (scan_named (codes "INVITE") text) _ _ λ (user, sdp).
        heard_by-bind (shared c d) (described p (codes "offer") sdp) _ _ λ a.
          heard_by-bind (shared c d)
            (sprintf socket_buffer_size (codes "ACCEPT " ++ c_string c.local_sdp)) _ _ λ m. refl

  handle_accept-shared :
      (c d : Client) (text : Text)
      → handle_accept p (shared c d) text ≡ heard_by (shared c d) (handle_accept p c text)
  unfolding handle_accept
  handle_accept-shared c d text =
      heard_by-bind (shared c d)
        (strncpy socket_buffer_size (drop 7 text) (size_sub (length text) 7)) _ _
        λ sdp. heard_by-bind (shared c d) (described p (codes "answer") sdp) _ _ λ a. refl

  hear-shared :
      (c d : Client) (text : Text)
      → hear p (shared c d) text ≡ heard_by (shared c d) (hear p c text)
  unfolding hear
  hear-shared c d text =
      ground (arith, handle_invite-shared c d text, handle_accept-shared c d text)

  hear-writes_remote :
      (c : Client) (text : Text) (h : Heard)
      → hear p c text ≡ ok h
      → h.client ≡ with_remote h.client.remote_sdp c
  hear-writes_remote c text h e = cc (e, hear-shared c c text)

  listen-shared_after :
      (rs : List (Bool × Option Text × Bool)) (c d : Client) (text : Text) (h : Heard)
      → hear p c text ≡ ok h
      → listen p rs (shared h.client d) ≡ heard_by (shared h.client d) (listen p rs h.client)
      → listen p rs (with_remote h.client.remote_sdp (shared c d))
        ≡ heard_by (with_remote h.client.remote_sdp (shared c d)) (listen p rs h.client)
  listen-shared_after rs c d text h e =
      let own = ap (λ (x : Client). x.local_sdp) (hear-writes_remote c text h e) in
      let same =
        ap (λ own_sdp. record d { local_sdp = own_sdp; remote_sdp = h.client.remote_sdp }) own in
      subst (λ x. listen p rs x ≡ heard_by x (listen p rs h.client)) same

  pub listen-shared :
      (rs : List (Bool × Option Text × Bool)) (c d : Client)
      → listen p rs (shared c d) ≡ heard_by (shared c d) (listen p rs c)
  unfolding listen
  listen-shared [] c d = refl
  listen-shared ((false, received, still) ∷ rs) c d = refl
  listen-shared ((true, none, still) ∷ rs) c d = refl
  listen-shared ((true, some bytes, still) ∷ rs) c d =
      heard_by-bind (shared c d) (read_buffer socket_buffer_size bytes) _ _ λ text.
        rw (hear-shared c d text) (elim (Result-cases (hear p c text)) [
          | inr (f, e) ↦ rw e refl
          | inl (h, e) ↦ rw e (
              ap
                (λ rest.
                  then_listens still rest
                    (record h { client = with_remote h.client.remote_sdp (shared c d) }))
                (listen-shared_after rs c d text h e (listen-shared rs h.client d))
              ∙ then_listens-heard_by (shared c d) still (listen p rs h.client) h)
        ])

  pub writes_remote :
      (rs : List (Bool × Option Text × Bool)) (c : Client) (h : Heard)
      → listen p rs c ≡ ok h
      → h.client ≡ with_remote h.client.remote_sdp c
  writes_remote rs c h e = cc (e, listen-shared rs c c)
