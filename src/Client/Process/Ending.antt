-- ===== src/Client/Process/Ending.antt =====
-- How many moves of the client's process there can be after SIGINT, and what moves before its end.
use client_server_signaling.Base.{
  ℕ, suc, ◌+◌, ◌≤◌, ◌≡◌, ◌≢◌, refl, sym, ◌∙◌, arith, Text, Bool, true, false, Option, List, ◌⊎◌,
  inl, inr, ℤ, if◌then◌else◌, append-nil,
}
use client_server_signaling.Fault.{Fault, ok, err, Result-cases}
use client_server_signaling.Client.State.{Client}
use client_server_signaling.Client.Menu.{Choice, left, exited}
use client_server_signaling.Client.Listener.{Peer, Event}
use client_server_signaling.Client.Process.{
  MenuPhase, ListenPhase, choosing, joining, returned, quit, awaiting, hearing, gone, ClientProcess,
  after_round, menu_step, listener_step, Move,
}
use client_server_signaling.Client.Process.Winding.{
  menu_rank, listen_rank, rank, at_phases, menu_step-out, listener-ends, Move-Falls,
}

-- That many moves that change something, in any order.
pub data Unwinds (p : Peer) (s : ClientProcess) : ℕ → ClientProcess → Type 0 where
  unwinds_none : Unwinds p s 0 s
  unwinds_more :
      (n : ℕ) (w v : ClientProcess) → Unwinds p s n w → Move p w v → w ≢ v → Unwinds p s (suc n) v

record Bounded (s : ClientProcess) (n : ℕ) (w : ClientProcess) : Type 0 where
  cleared : w.client.running ≡ false
  bounded : n + rank w ≤ rank s

Unwinds-Bounded :
    (p : Peer) (s : ClientProcess) (n : ℕ) (w : ClientProcess)
    → s.client.running ≡ false
    → Unwinds p s n w
    → Bounded s n w
Unwinds-Bounded p s _ _ h unwinds_none = record { cleared = h; bounded = omega arith }
Unwinds-Bounded p s _ _ h (unwinds_more n w v ws m k) =
    let b = Unwinds-Bounded p s n w h ws in
    let f = Move-Falls p w v b.cleared m in
    record {
      cleared = f.cleared;
      bounded = elim f.falls [ inl e ↦ absurd (k (sym e)) | inr l ↦ omega (arith, b.bounded, l) ];
    }

rank-le : (menu : MenuPhase) (l : ListenPhase) → menu_rank menu + listen_rank l ≤ 3
rank-le menu l = ground arith

-- The next step of the menu, with an option: it leaves the menu and sends nothing; or `main` returns
-- if the listener's thread has ended, and waits for it otherwise.
abbrev pub MenuEnds : Choice → ClientProcess → Type 0
MenuEnds o w = elim w.menu [
  | choosing ↦
      menu_step o w ≡ ok (record w { menu = if w.client.exit_selected then joining else quit })
  | joining ↦ elim w.listener [
    | gone ↦ menu_step o w ≡ ok (record w { menu = returned })
    | _ ↦ menu_step o w ≡ ok w
  ]
  | _ ↦ menu_step o w ≡ ok w
]

-- The next step of the listener, with what `accept` or `recv` returns: it is the last, or a fault.
abbrev pub ListenerEnds : Peer → ℤ → Bool → Option Text → ClientProcess → Type 0
ListenerEnds p a running received w = elim w.listener [
  | gone ↦ listener_step p a running received w ≡ ok w
  | _ ↦
      ((v : ClientProcess) × (listener_step p a running received w ≡ ok v) × (v.listener ≡ gone))
      ⊎ ((f : Fault) × (listener_step p a running received w ≡ err f))
]

out_of_menu :
    (exit_selected : Bool)
    → after_round (if exit_selected then left else exited)
      ≡ (if exit_selected then joining else quit)
out_of_menu true = refl
out_of_menu false = refl

cleared-MenuEnds :
    (o : Choice) (c : Client) (menu : MenuPhase) (l : ListenPhase) (requests : List Text)
    (events : List Event)
    → o.interrupted ≡ false
    → c.running ≡ false
    → MenuEnds o (at_phases c menu l requests events)
unfolding menu_step
cleared-MenuEnds o c choosing l requests events i h =
    menu_step-out o (at_phases c choosing l requests events) i h
    ∙ rw (out_of_menu c.exit_selected, append-nil requests) refl
cleared-MenuEnds o c joining gone requests events i h = refl
cleared-MenuEnds o c joining awaiting requests events i h = refl
cleared-MenuEnds o c joining hearing requests events i h = refl
cleared-MenuEnds o c returned l requests events i h = refl
cleared-MenuEnds o c quit l requests events i h = refl

last_step :
    (p : Peer) (a : ℤ) (running : Bool) (received : Option Text) (c : Client) (menu : MenuPhase)
    (l : ListenPhase) (requests : List Text) (events : List Event)
    → c.running ≡ false
    → l ≢ gone
    → let w = at_phases c menu l requests events in
      ((v : ClientProcess) × (listener_step p a running received w ≡ ok v) × (v.listener ≡ gone))
      ⊎ ((f : Fault) × (listener_step p a running received w ≡ err f))
last_step p a running received c menu l requests events h k =
    let w = at_phases c menu l requests events in
    elim (Result-cases (listener_step p a running received w)) [
      | inr (f, e) ↦ inr (f, e)
      | inl (v, e) ↦ inl (v, e, listener-ends p a running received c menu l requests events v h k e)
    ]

cleared-ListenerEnds :
    (p : Peer) (a : ℤ) (running : Bool) (received : Option Text) (c : Client) (menu : MenuPhase)
    (l : ListenPhase) (requests : List Text) (events : List Event)
    → c.running ≡ false
    → ListenerEnds p a running received (at_phases c menu l requests events)
unfolding listener_step
cleared-ListenerEnds p a running received c menu gone requests events h = refl
cleared-ListenerEnds p a running received c menu awaiting requests events h =
    last_step p a running received c menu awaiting requests events h (λ e. ground arith)
cleared-ListenerEnds p a running received c menu hearing requests events h =
    last_step p a running received c menu hearing requests events h (λ e. ground arith)

-- Once `running` is cleared, whatever the order of the moves and with more signals among them, at
-- most three change something. After any such moves the next option that is typed in the menu,
-- whichever it is, leaves the menu and sends nothing: to the join if an exit was selected, else out
-- of the process. The next return of the listener's `accept` or `recv` ends its thread, whatever it
-- returns, unless the message is a fault; and `main` returns as soon as that thread has ended.
pub Unwinds-ends :
    (p : Peer) (s w : ClientProcess) (n : ℕ) (o : Choice) (a : ℤ) (running : Bool)
    (received : Option Text)
    → s.client.running ≡ false
    → Unwinds p s n w
    → o.interrupted ≡ false
    → (n ≤ 3) × MenuEnds o w × ListenerEnds p a running received w
Unwinds-ends p s w n o a running received h ws i =
    let b = Unwinds-Bounded p s n w h ws in
    (
      omega (arith, b.bounded, rank-le s.menu s.listener),
      cleared-MenuEnds o w.client w.menu w.listener w.requests w.events i b.cleared,
      cleared-ListenerEnds p a running received w.client w.menu w.listener w.requests w.events
          b.cleared,
    )
