-- ===== src/Client/Process/Apart.antt =====
-- What the menu and the listener make no difference to: the listener's loop is the same after a round
-- of the menu, and `open_menu` after a message, but for what each has written.
use client_server_signaling.Base.{
  ◌≡◌, refl, sym, ◌∙◌, ap, subst, arith, Text, Bool, Option, List, [], ◌∷◌, inl, inr,
}
use client_server_signaling.Fault.{Result, ok, err, Result-cases}
use client_server_signaling.Client.State.{Client}
use client_server_signaling.Client.Menu.{
  Choice, MenuFlow, MenuTurn, again, left, exited, menu_round, open_menu, then_sent,
}
use client_server_signaling.Client.Listener.{Peer, Heard, listen}
use client_server_signaling.Client.Process.Remote.{with_remote, turn_with, menu_round-with_remote}
use client_server_signaling.Client.Process.Shared.{shared, heard_by, listen-shared}
use client_server_signaling.Client.Process.Keeps.{menu_round-keeps}

-- A round of the menu after the message.
round_after :
    (o : Choice) (c : Client) (t : MenuTurn) (sdp : Text)
    → menu_round o c ≡ ok t
    → menu_round o (with_remote sdp c) ≡ ok (record t { client = with_remote sdp t.client })
round_after o c t sdp e = rw (menu_round-with_remote sdp o c, e) refl

keeps_remote :
    (o : Choice) (c : Client) (t : MenuTurn)
    → menu_round o c ≡ ok t
    → t.client.remote_sdp ≡ c.remote_sdp
keeps_remote o c t e = cc (e, round_after o c t c.remote_sdp e)

is_shared :
    (o : Choice) (c : Client) (t : MenuTurn) → menu_round o c ≡ ok t → shared c t.client ≡ t.client
is_shared o c t e = rw⁻¹ (menu_round-keeps o c t e, keeps_remote o c t e) refl

-- How the menu goes on after a round.
abbrev pub then_menu : Result MenuTurn → MenuTurn → Result MenuTurn
then_menu rest t = elim t.flow [ again ↦ then_sent t.sent rest | left ↦ ok t | exited ↦ ok t ]

then_menu-turn_with :
    (sdp : Text) (rest : Result MenuTurn) (t : MenuTurn)
    → then_menu (turn_with sdp rest) (record t { client = with_remote sdp t.client })
      ≡ turn_with sdp (then_menu rest t)
then_menu-turn_with sdp rest t = go rest t.flow
  where
    go :
        (rest : Result MenuTurn) (flow : MenuFlow)
        → then_menu
            (turn_with sdp rest)
            (record { client = with_remote sdp t.client; sent = t.sent; flow = flow })
          ≡ turn_with sdp (then_menu rest (record t { flow = flow }))
    go rest left = refl
    go rest exited = refl
    go (ok u) again = refl
    go (err f) again = refl

open_menu-with_remote :
    (sdp : Text) (os : List Choice) (c : Client)
    → open_menu os (with_remote sdp c) ≡ turn_with sdp (open_menu os c)
unfolding open_menu
open_menu-with_remote sdp [] c = refl
open_menu-with_remote sdp (o ∷ os) c = elim (Result-cases (menu_round o c)) [
  | inr (f, e) ↦ rw (menu_round-with_remote sdp o c, e) refl
  | inl (t, e) ↦
      rw (menu_round-with_remote sdp o c, e)
        (ap (λ rest. then_menu rest (record t { client = with_remote sdp t.client }))
            (open_menu-with_remote sdp os t.client)
          ∙ then_menu-turn_with sdp (open_menu os t.client) t)
]

-- What a round of the menu makes no difference to.
pub listener_apart :
    (p : Peer) (o : Choice) (rs : List (Bool × Option Text × Bool)) (c : Client) (t : MenuTurn)
    (u : Heard)
    → menu_round o c ≡ ok t
    → listen p rs t.client ≡ ok u
    → (h : Heard) × (listen p rs c ≡ ok h)
      × (u.client.remote_sdp ≡ h.client.remote_sdp)
      × (u.events ≡ h.events)
listener_apart p o rs c t u e e' =
    let moved =
      subst (λ d. listen p rs d ≡ heard_by d (listen p rs c)) (is_shared o c t e)
        (listen-shared p rs c t.client) in
    elim (Result-cases (listen p rs c)) [
      | inr (f, q) ↦
          let impossible : ok u ≡ err f = sym e' ∙ moved ∙ ap (heard_by t.client) q in
          absurd (ground arith)
      | inl (h, q) ↦
          let both : ok u ≡ ok (record h { client = with_remote h.client.remote_sdp t.client }) =
            sym e' ∙ moved ∙ ap (heard_by t.client) q in
          let same : u ≡ record h { client = with_remote h.client.remote_sdp t.client } = cc both in
          (h, q, ap (λ (x : Heard). x.client.remote_sdp) same, ap (λ (x : Heard). x.events) same)
    ]

-- And what a message makes none to.
pub menu_apart :
    (sdp : Text) (os : List Choice) (c : Client) (u : MenuTurn)
    → open_menu os (with_remote sdp c) ≡ ok u
    → (t : MenuTurn) × (open_menu os c ≡ ok t)
      × (u.client ≡ with_remote sdp t.client)
      × (u.sent ≡ t.sent)
menu_apart sdp os c u e = elim (Result-cases (open_menu os c)) [
  | inr (f, q) ↦
      let impossible : ok u ≡ err f =
        sym e ∙ open_menu-with_remote sdp os c ∙ ap (turn_with sdp) q in
      absurd (ground arith)
  | inl (t, q) ↦
      let both : ok u ≡ ok (record t { client = with_remote sdp t.client }) =
        sym e ∙ open_menu-with_remote sdp os c ∙ ap (turn_with sdp) q in
      let same : u ≡ record t { client = with_remote sdp t.client } = cc both in
      (t, q, ap (λ (x : MenuTurn). x.client) same, ap (λ (x : MenuTurn). x.sent) same)
]
