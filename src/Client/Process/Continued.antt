-- ===== src/Client/Process/Continued.antt =====
-- `open_menu` and the listener's loop from one round to the next.
use client_server_signaling.Base.{
  ◌≡◌, ◌≢◌, refl, sym, ◌∙◌, ap, subst, arith, Text, Bool, true, Option, none, some, List, [], ◌∷◌,
  ◌++◌, map, append-nil,
}
use client_server_signaling.Fault.{Result, ok, >>=-eq-ok}
use client_server_signaling.Wire.{socket_buffer_size, read_buffer}
use client_server_signaling.Client.State.{Client}
use client_server_signaling.Client.Menu.{
  Choice, MenuFlow, MenuTurn, again, left, exited, menu_round, open_menu,
}
use client_server_signaling.Client.Listener.{
  Peer, Event, Heard, Listening, listens, stops, hear, listen,
}
use client_server_signaling.Client.Process.Shared.{then_listens}
use client_server_signaling.Client.Process.Apart.{then_menu}

-- The listener's rounds, with `running` never cleared.
abbrev pub rounds : List (Option Text) → List (Bool × Option Text × Bool)
rounds ms = map (λ m. (true, m, true)) ms

cons_after :
    (rest : Client → Result Heard) (c : Client) (events : List Event) (next : Listening) (h : Heard)
    → then_listens true
        (ok (record { client = c; events = []; next = listens }))
        (record { client = c; events = events; next = next })
      ≡ ok h
    → then_listens true (rest c) (record { client = c; events = events; next = next })
      ≡ then_listens true (rest h.client) h
cons_after rest c events stops h e =
    let same : record { client = c; events = events; next = stops } ≡ h = cc e in
    ap (λ (x : Heard). then_listens true (rest x.client) x) same
cons_after rest c events listens h e =
    let same : record { client = c; events = events ++ []; next = listens } ≡ h = cc e in
    ap (λ es. then_listens true (rest c) (record { client = c; events = es; next = listens }))
      (sym (append-nil events))
    ∙ ap (λ (x : Heard). then_listens true (rest x.client) x) same

listen-cons :
    (p : Peer) (m : Option Text) (rs : List (Bool × Option Text × Bool)) (c : Client) (h : Heard)
    → listen p ((true, m, true) ∷ []) c ≡ ok h
    → listen p ((true, m, true) ∷ rs) c ≡ then_listens true (listen p rs h.client) h
unfolding listen
listen-cons p none rs c h e =
    let same : record { client = c; events = []; next = stops } ≡ h = cc e in
    ap (λ (x : Heard). then_listens true (listen p rs x.client) x) same
listen-cons p (some bytes) rs c h e =
    let (text, e2, e3) = >>=-eq-ok (read_buffer socket_buffer_size bytes) _ e in
    let (g, e4, e5) = >>=-eq-ok (hear p c text) _ e3 in
    rw (e2, e4) (cons_after (listen p rs) g.client g.events g.next h e5)

-- With no option more.
menu_over :
    (os : List Choice) (c : Client) (sent : List Text) (u : MenuTurn)
    → os ≡ []
    → open_menu os c ≡ ok u
    → (c ≡ u.client) × (sent ≡ sent ++ u.sent)
unfolding open_menu
menu_over os c sent u none_left e =
    let over : ok (record { client = c; sent = []; flow = again }) ≡ ok u =
      subst (λ rest. open_menu rest c ≡ ok u) none_left e in
    let same : record { client = c; sent = []; flow = again } ≡ u = cc over in
    (
      ap (λ (x : MenuTurn). x.client) same,
      sym (append-nil sent) ∙ ap (λ (x : MenuTurn). sent ++ x.sent) same,
    )

-- The menu from the round of one option on.
menu_more :
    (os : List Choice) (c : Client) (sent : List Text) (flow : MenuFlow) (u : MenuTurn)
    → (flow ≢ again → os ≡ [])
    → open_menu os c ≡ ok u
    → (r : MenuTurn) × (then_menu (open_menu os c) (record { client = c; sent = sent; flow = flow })
        ≡ ok r)
      × (r.client ≡ u.client)
      × (r.sent ≡ sent ++ u.sent)
menu_more os c sent again u k e = (record u { sent = sent ++ u.sent }, rw e refl, refl, refl)
menu_more os c sent left u k e =
    let (same_client, same_sent) = menu_over os c sent u (k (λ q. absurd (ground arith))) e in
    (record { client = c; sent = sent; flow = left }, refl, same_client, same_sent)
menu_more os c sent exited u k e =
    let (same_client, same_sent) = menu_over os c sent u (k (λ q. absurd (ground arith))) e in
    (record { client = c; sent = sent; flow = exited }, refl, same_client, same_sent)

pub menu_cons :
    (o : Choice) (os : List Choice) (c : Client) (t u : MenuTurn)
    → menu_round o c ≡ ok t
    → (t.flow ≢ again → os ≡ [])
    → open_menu os t.client ≡ ok u
    → (r : MenuTurn) × (open_menu (o ∷ os) c ≡ ok r)
      × (r.client ≡ u.client)
      × (r.sent ≡ t.sent ++ u.sent)
unfolding open_menu
menu_cons o os c t u e k e' =
    let (r, done, same_client, same_sent) = menu_more os t.client t.sent t.flow u k e' in
    (r, rw e done, same_client, same_sent)

-- The same of the listener.
listener_over :
    (p : Peer) (ms : List (Option Text)) (c : Client) (events : List Event) (u : Heard)
    → ms ≡ []
    → listen p (rounds ms) c ≡ ok u
    → (c ≡ u.client) × (events ≡ events ++ u.events)
unfolding listen
listener_over p ms c events u none_left e =
    let over : ok (record { client = c; events = []; next = listens }) ≡ ok u =
      subst (λ rest. listen p (rounds rest) c ≡ ok u) none_left e in
    let same : record { client = c; events = []; next = listens } ≡ u = cc over in
    (
      ap (λ (x : Heard). x.client) same,
      sym (append-nil events) ∙ ap (λ (x : Heard). events ++ x.events) same,
    )

listener_more :
    (p : Peer) (ms : List (Option Text)) (c : Client) (events : List Event) (next : Listening)
    (u : Heard)
    → (next ≢ listens → ms ≡ [])
    → listen p (rounds ms) c ≡ ok u
    → (r : Heard) × (then_listens true
          (listen p (rounds ms) c)
          (record { client = c; events = events; next = next })
        ≡ ok r)
      × (r.client ≡ u.client)
      × (r.events ≡ events ++ u.events)
listener_more p ms c events listens u k e =
    (record u { events = events ++ u.events }, rw e refl, refl, refl)
listener_more p ms c events stops u k e =
    let (same_client, same_events) =
      listener_over p ms c events u (k (λ q. absurd (ground arith))) e in
    (record { client = c; events = events; next = stops }, refl, same_client, same_events)

pub listener_cons :
    (p : Peer) (m : Option Text) (ms : List (Option Text)) (c : Client) (h u : Heard)
    → listen p ((true, m, true) ∷ []) c ≡ ok h
    → (h.next ≢ listens → ms ≡ [])
    → listen p (rounds ms) h.client ≡ ok u
    → (r : Heard) × (listen p (rounds (m ∷ ms)) c ≡ ok r)
      × (r.client ≡ u.client)
      × (r.events ≡ h.events ++ u.events)
listener_cons p m ms c h u e k e' =
    let (r, done, same_client, same_events) = listener_more p ms h.client h.events h.next u k e' in
    (r, listen-cons p m (rounds ms) c h e ∙ done, same_client, same_events)
