-- ===== src/Client/Menu/Rounds.antt =====
-- What one round of the menu may do.
use client_server_signaling.Base.{◌≡◌, ◌≢◌, ◌↔◌, arith, true, false, [], pos, int_eq_iff}
use client_server_signaling.Fault.{ok}
use client_server_signaling.Client.State.{Client}
use client_server_signaling.Client.Menu.{Choice, again, MenuTurn, select, menu_round}

-- A call is not made before a login: the option is passed over and nothing is sent.
pub select_call_logged_out :
    (o : Choice) (c : Client)
    → o.option ≡ pos 3
    → c.is_login ≡ false
    → select o c ≡ ok (record { client = c; sent = [] })
unfolding select
select_call_logged_out o c e l = ground arith

-- The menu goes on after a round exactly when no SIGINT has come, the server was and is connected,
-- and the option was not 5.
pub menu_round-again_iff :
    (o : Choice) (c : Client) (t : MenuTurn)
    → menu_round o c ≡ ok t
    → (t.flow ≡ again) ↔ (
        (c.running ≡ true)
        × (o.interrupted ≡ false)
        × (c.server_disconnected ≡ false)
        × (t.client.server_disconnected ≡ false)
        × (o.option ≢ pos 5))
unfolding menu_round
menu_round-again_iff o c t h = (
  λ e. ground (arith, int_eq_iff o.option (pos 5)),
  λ e. ground (arith, int_eq_iff o.option (pos 5)),
)
