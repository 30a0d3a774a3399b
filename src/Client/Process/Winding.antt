-- ===== src/Client/Process/Winding.antt =====
-- What a move of the client's process does once `running` is cleared.
use client_server_signaling.Base.{
  ℕ, ◌+◌, ◌<◌, ◌≡◌, ◌≢◌, refl, sym, ◌∙◌, ap, subst, arith, Text, Bool, true, false, Option, none,
  some, List, [], ◌∷◌, ◌++◌, ◌⊎◌, inl, inr, ℤ, if◌then◌else◌,
}
use client_server_signaling.Fault.{ok, >>=-eq-ok}
use client_server_signaling.Wire.{socket_buffer_size, read_buffer}
use client_server_signaling.Client.State.{Client, signal_handler}
use client_server_signaling.Client.Menu.{Choice, left, exited, menu_round}
use client_server_signaling.Client.Listener.{Peer, Event, Heard, stops, hear, listen}
use client_server_signaling.Client.Process.{
  MenuPhase, ListenPhase, choosing, joining, returned, quit, awaiting, hearing, gone, ClientProcess,
  after_round, menu_step, listener_step, Move, interrupts, menu_moves, listener_moves,
}
use client_server_signaling.Client.Process.Shared.{writes_remote}

-- How many steps the menu and the listener may still take.
abbrev pub menu_rank : MenuPhase → ℕ
menu_rank choosing = 2
menu_rank joining = 1
menu_rank phase = 0

abbrev pub listen_rank : ListenPhase → ℕ
listen_rank gone = 0
listen_rank phase = 1

abbrev pub rank : ClientProcess → ℕ
rank w = menu_rank w.menu + listen_rank w.listener

-- A round that finds `running` cleared leaves the menu, and changes nothing.
menu_round-cleared :
    (o : Choice) (c : Client)
    → o.interrupted ≡ false
    → c.running ≡ false
    → menu_round o c
      ≡ ok (record { client = c; sent = []; flow = if c.exit_selected then left else exited })
unfolding menu_round
menu_round-cleared o c i h = ground arith

-- A message that finds `running` cleared is the last one.
listen-cleared :
    (p : Peer) (running : Bool) (received : Option Text) (c : Client) (h : Heard)
    → listen p ((running, received, false) ∷ []) c ≡ ok h
    → h.next ≡ stops
unfolding listen
listen-cleared p false received c h e = ground arith
listen-cleared p true none c h e = ground arith
listen-cleared p true (some bytes) c h e =
    let (text, e2, e3) = >>=-eq-ok (read_buffer socket_buffer_size bytes) _ e in
    let (g, e4, e5) = >>=-eq-ok (hear p c text) _ e3 in ground arith

abbrev pub at_phases : Client → MenuPhase → ListenPhase → List Text → List Event → ClientProcess
at_phases c menu l requests events = record {
  client = c;
  menu = menu;
  listener = l;
  requests = requests;
  events = events;
}

-- A move after the clearing, at its two ends.
pub record Falls (w v : ClientProcess) : Type 0 where
  pub cleared : v.client.running ≡ false
  pub falls : (v ≡ w) ⊎ (rank v < rank w)

Falls-ok : (w u v : ClientProcess) → ok u ≡ ok v → Falls w u → Falls w v
Falls-ok w u v e = subst (Falls w) (cc e)

same-Falls : (w : ClientProcess) → w.client.running ≡ false → Falls w w
same-Falls w h = record { cleared = h; falls = inl refl }

-- The process out of the menu.
abbrev out : ClientProcess → ClientProcess
out w = record w {
  menu = after_round (if w.client.exit_selected then left else exited);
  requests = w.requests ++ [];
}

pub menu_step-out :
    (o : Choice) (w : ClientProcess)
    → o.interrupted ≡ false
    → w.client.running ≡ false
    → menu_step o (record w { menu = choosing }) ≡ ok (out w)
unfolding menu_step
menu_step-out o w i h = rw (menu_round-cleared o w.client i h) refl

out-rank :
    (exit_selected : Bool) → menu_rank (after_round (if exit_selected then left else exited)) < 2
out-rank true = omega arith
out-rank false = omega arith

menu-Falls :
    (o : Choice) (c : Client) (menu : MenuPhase) (l : ListenPhase) (requests : List Text)
    (events : List Event) (v : ClientProcess)
    → o.interrupted ≡ false
    → c.running ≡ false
    → let w = at_phases c menu l requests events in menu_step o w ≡ ok v → Falls w v
unfolding menu_step
menu-Falls o c choosing l requests events v i h e =
    let w = at_phases c choosing l requests events in
    Falls-ok w (out w) v (sym (menu_step-out o w i h) ∙ e)
      (record { cleared = h; falls = inr (omega (arith, out-rank c.exit_selected)) })
menu-Falls o c joining gone requests events v i h e =
    Falls-ok _ _ v e (record { cleared = h; falls = inr (omega arith) })
menu-Falls o c joining awaiting requests events v i h e = Falls-ok _ _ v e (same-Falls _ h)
menu-Falls o c joining hearing requests events v i h e = Falls-ok _ _ v e (same-Falls _ h)
menu-Falls o c returned l requests events v i h e = Falls-ok _ _ v e (same-Falls _ h)
menu-Falls o c quit l requests events v i h e = Falls-ok _ _ v e (same-Falls _ h)

-- The flag stays cleared, fewer steps are left, and the listener's thread has ended.
abbrev Drops : ClientProcess → ClientProcess → Type 0
Drops w v = (v.client.running ≡ false) × (rank v < rank w) × (v.listener ≡ gone)

Drops-ok : (w u v : ClientProcess) → ok u ≡ ok v → Drops w u → Drops w v
Drops-ok w u v e = let same : u ≡ v = cc e in subst (Drops w) same

-- A step of a listener that has not ended is its last.
listener-Drops :
    (p : Peer) (a : ℤ) (running : Bool) (received : Option Text) (c : Client) (menu : MenuPhase)
    (l : ListenPhase) (requests : List Text) (events : List Event) (v : ClientProcess)
    → c.running ≡ false
    → l ≢ gone
    → let w = at_phases c menu l requests events in
      listener_step p a running received w ≡ ok v → Drops w v
unfolding listener_step
listener-Drops p a running received c menu gone requests events v h k e = absurd (k refl)
listener-Drops p a running received c menu awaiting requests events v h k e =
    Drops-ok (at_phases c menu awaiting requests events) _ v e (h, rw h (omega arith), rw h refl)
listener-Drops p a running received c menu hearing requests events v h k e =
    let (g, e2, e3) = >>=-eq-ok (listen p ((running, received, c.running) ∷ []) c) _ e in
    let stopped =
      listen-cleared p running received c g
        (ap (λ b. listen p ((running, received, b) ∷ []) c) (sym h) ∙ e2) in
    Drops-ok (at_phases c menu hearing requests events) _ v e3 (
      ap (λ (d : Client). d.running) (writes_remote p ((running, received, c.running) ∷ []) c g e2)
          ∙ h,
      rw stopped (omega arith),
      rw stopped refl,
    )

pub listener-ends :
    (p : Peer) (a : ℤ) (running : Bool) (received : Option Text) (c : Client) (menu : MenuPhase)
    (l : ListenPhase) (requests : List Text) (events : List Event) (v : ClientProcess)
    → c.running ≡ false
    → l ≢ gone
    → listener_step p a running received (at_phases c menu l requests events) ≡ ok v
    → v.listener ≡ gone
listener-ends p a running received c menu l requests events v h k e =
    let (_, _, ended) = listener-Drops p a running received c menu l requests events v h k e in
    ended

listener-Falls :
    (p : Peer) (a : ℤ) (running : Bool) (received : Option Text) (c : Client) (menu : MenuPhase)
    (l : ListenPhase) (requests : List Text) (events : List Event) (v : ClientProcess)
    → c.running ≡ false
    → let w = at_phases c menu l requests events in
      listener_step p a running received w ≡ ok v → Falls w v
unfolding listener_step
listener-Falls p a running received c menu gone requests events v h e =
    Falls-ok _ _ v e (same-Falls _ h)
listener-Falls p a running received c menu awaiting requests events v h e =
    let (cleared, falls, _) =
      listener-Drops p a running received c menu awaiting requests events v h
        (λ q. absurd (ground arith)) e in
    record { cleared = cleared; falls = inr falls }
listener-Falls p a running received c menu hearing requests events v h e =
    let (cleared, falls, _) =
      listener-Drops p a running received c menu hearing requests events v h
        (λ q. absurd (ground arith)) e in
    record { cleared = cleared; falls = inr falls }

handled : (sig : ℕ) (c : Client) → c.running ≡ false → signal_handler sig c ≡ c
handled sig c h = ground arith

pub Move-Falls :
    (p : Peer) (w v : ClientProcess) → w.client.running ≡ false → Move p w v → Falls w v
Move-Falls p _ _ h (interrupts sig w k) = record {
  cleared = ap (λ (d : Client). d.running) (handled sig w.client h) ∙ h;
  falls = inl (ap (λ d. record w { client = d }) (handled sig w.client h));
}
Move-Falls p _ _ h (menu_moves o w v i k e) =
    menu-Falls o w.client w.menu w.listener w.requests w.events v i h e
Move-Falls p _ _ h (listener_moves a running received w v f k e) =
    listener-Falls p a running received w.client w.menu w.listener w.requests w.events v h e
