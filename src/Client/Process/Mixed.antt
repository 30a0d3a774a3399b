-- ===== src/Client/Process/Mixed.antt =====
-- Options and messages that come after one another in any order.
use client_server_signaling.Base.{
  ◌≡◌, ◌≢◌, refl, sym, ◌∙◌, ap, subst, arith, Text, true, Option, List, [], ◌∷◌, ◌++◌, inl, inr, ℤ,
  Bool-cases,
}
use client_server_signaling.Fault.{ok, >>=-eq-ok}
use client_server_signaling.Client.State.{Client}
use client_server_signaling.Client.Menu.{Choice, MenuTurn, menu_round}
use client_server_signaling.Client.Listener.{Peer, Heard, listen}
use client_server_signaling.Client.Process.{
  choosing, hearing, ClientProcess, after_round, after_message, menu_step, listener_step,
}
use client_server_signaling.Client.Process.Shared.{writes_remote}

-- The options and what `recv` gives, each in its order, from one state of the process to another.
pub data Mixed (p : Peer)
    : List Choice → List (Option Text) → ClientProcess → ClientProcess → Type 0 where
  mixed_none : (w : ClientProcess) → Mixed p [] [] w w
  menu_next :
      (o : Choice) (os : List Choice) (ms : List (Option Text)) (w v u : ClientProcess)
      → w.menu ≡ choosing
      → menu_step o w ≡ ok v
      → Mixed p os ms v u
      → Mixed p (o ∷ os) ms w u
  listener_next :
      (accept_result : ℤ) (received : Option Text) (os : List Choice) (ms : List (Option Text))
      (w v u : ClientProcess)
      → w.listener ≡ hearing
      → listener_step p accept_result true received w ≡ ok v
      → Mixed p os ms v u
      → Mixed p os (received ∷ ms) w u

-- A step of the menu, or of the listener, taken apart.
pub record Round (o : Choice) (w v : ClientProcess) : Type 0 where
  pub turn : MenuTurn
  pub done : menu_round o w.client ≡ ok turn
  pub after : v ≡ record w {
    client = turn.client;
    menu = after_round turn.flow;
    requests = w.requests ++ turn.sent;
  }

pub menu_step-Round :
    (o : Choice) (w v : ClientProcess) → w.menu ≡ choosing → menu_step o w ≡ ok v → Round o w v
unfolding menu_step
menu_step-Round o w v hc e =
    let at_choosing : menu_step o (record w { menu = choosing }) ≡ ok v =
      subst (λ k. menu_step o (record w { menu = k }) ≡ ok v) hc e in
    let (t, e2, e3) = >>=-eq-ok (menu_round o w.client) _ at_choosing in
    record { turn = t; done = e2; after = cc e3 }

pub record Message (p : Peer) (m : Option Text) (w v : ClientProcess) : Type 0 where
  pub heard : Heard
  pub done : listen p ((true, m, w.client.running) ∷ []) w.client ≡ ok heard
  pub after : v ≡ record w {
    client = heard.client;
    listener = after_message heard.next;
    events = w.events ++ heard.events;
  }

pub listener_step-Message :
    (p : Peer) (a : ℤ) (m : Option Text) (w v : ClientProcess)
    → w.listener ≡ hearing
    → listener_step p a true m w ≡ ok v
    → Message p m w v
unfolding listener_step
listener_step-Message p a m w v hl e =
    let at_hearing : listener_step p a true m (record w { listener = hearing }) ≡ ok v =
      subst (λ k. listener_step p a true m (record w { listener = k }) ≡ ok v) hl e in
    let (h, e2, e3) =
      >>=-eq-ok (listen p ((true, m, w.client.running) ∷ []) w.client) _ at_hearing in
    record { heard = h; done = e2; after = cc e3 }

-- There are no options after the menu, and no messages after the listener's end.
pub out_of_menu :
    (p : Peer) (os : List Choice) (ms : List (Option Text)) (w u : ClientProcess)
    → w.menu ≢ choosing
    → Mixed p os ms w u
    → os ≡ []
out_of_menu p _ _ _ _ k (mixed_none w) = refl
out_of_menu p _ _ _ _ k (menu_next o os ms w v u c e rest) = absurd (k c)
out_of_menu p _ _ _ _ k (listener_next a m os ms w v u c e rest) =
    let s = listener_step-Message p a m w v c e in
    out_of_menu p os ms v u (λ q. k (ap (λ (x : ClientProcess). x.menu) (sym s.after) ∙ q)) rest

pub deaf :
    (p : Peer) (os : List Choice) (ms : List (Option Text)) (w u : ClientProcess)
    → w.listener ≢ hearing
    → Mixed p os ms w u
    → ms ≡ []
deaf p _ _ _ _ k (mixed_none w) = refl
deaf p _ _ _ _ k (listener_next a m os ms w v u c e rest) = absurd (k c)
deaf p _ _ _ _ k (menu_next o os ms w v u c e rest) =
    let s = menu_step-Round o w v c e in
    deaf p os ms v u (λ q. k (ap (λ (x : ClientProcess). x.listener) (sym s.after) ∙ q)) rest

-- A round does not set `running`.
menu_round-running :
    (o : Choice) (c : Client) (t : MenuTurn)
    → menu_round o c ≡ ok t
    → t.client.running ≡ true
    → c.running ≡ true
unfolding menu_round
menu_round-running o c t e h = elim (Bool-cases c.running) [ inl r ↦ r | inr r ↦ ground arith ]

pub Mixed-running :
    (p : Peer) (os : List Choice) (ms : List (Option Text)) (w u : ClientProcess)
    → Mixed p os ms w u
    → u.client.running ≡ true
    → w.client.running ≡ true
Mixed-running p _ _ _ _ (mixed_none w) h = h
Mixed-running p _ _ _ _ (menu_next o os ms w v u c e rest) h =
    let s = menu_step-Round o w v c e in
    menu_round-running o w.client s.turn s.done (
      ap (λ (x : ClientProcess). x.client.running) (sym s.after) ∙ Mixed-running p os ms v u rest h)
Mixed-running p _ _ _ _ (listener_next a m os ms w v u c e rest) h =
    let s = listener_step-Message p a m w v c e in
    ap (λ (x : Client). x.running)
      (sym (writes_remote p ((true, m, w.client.running) ∷ []) w.client s.heard s.done))
    ∙ ap (λ (x : ClientProcess). x.client.running) (sym s.after)
    ∙ Mixed-running p os ms v u rest h
