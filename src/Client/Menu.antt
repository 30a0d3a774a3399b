-- ===== src/Client/Menu.antt =====
-- `open_menu`: one round for each option that the user types.
pub mod Rounds
use client_server_signaling.Base.{
  ℕ, Text, codes, Bool, true, false, not, ◌&&◌, ◌||◌, Option, none, some, List, [], ◌∷◌, ◌++◌,
  if◌then◌else◌, ℤ, pos, int_eq,
}
use client_server_signaling.Fault.{Result, ok, err, ◌>>=◌}
use client_server_signaling.Client.State.{Client, signal_handler, Reply, Done}
use client_server_signaling.Client.Requests.{sign_up_login_user, logout_user, exit_user, call_peer}

-- What one round meets: the option, whether SIGINT came before it was typed, the words typed after
-- it, the replies to at most two requests, and whether `kill` succeeds.
pub record Choice : Type 0 where
  pub option : ℤ
  pub interrupted : Bool
  pub first_word : Text
  pub second_word : Text
  pub reply : Reply
  pub reply2 : Reply
  pub kill_ok : Bool

-- The loop goes on, it is left, or the process has exited.
pub data MenuFlow : Type 0 where
  again left exited : MenuFlow

pub record MenuTurn : Type 0 where
  pub client : Client
  pub sent : List Text
  pub flow : MenuFlow

-- The `switch`: 1 falls through to 2.
unfoldable pub select : Choice → Client → Result Done
select o c =
    if int_eq o.option (pos 1) || int_eq o.option (pos 2)
    then sign_up_login_user o.option o.first_word o.second_word o.reply c
    else if int_eq o.option (pos 3)
    then (if c.is_login
        then call_peer o.first_word o.reply.send_ok c
        else ok (record { client = c; sent = [] }))
    else if int_eq o.option (pos 4)
    then logout_user c.username o.reply c
    else if int_eq o.option (pos 5)
    then exit_user o.reply o.reply2 c
    else ok (record { client = c; sent = [] })

-- After the `switch`. The handler of the signal that the process sends itself clears `running`.
unfoldable pub after_select : Choice → Done → MenuTurn
after_select o d =
    if d.client.server_disconnected
    then record { client = d.client; sent = d.sent; flow = left }
    else if int_eq o.option (pos 5)
    then record {
      client = if o.kill_ok then signal_handler 2 d.client else d.client;
      sent = d.sent;
      flow = left;
    }
    else record { client = d.client; sent = d.sent; flow = again }

unfoldable pub menu_round : Choice → Client → Result MenuTurn
unfolding after_select
menu_round o before =
    let c = if o.interrupted then signal_handler 2 before else before in
    if not c.running
    then ok (record { client = c; sent = []; flow = if c.exit_selected then left else exited })
    else if c.server_disconnected
    then ok (record { client = c; sent = []; flow = left })
    else (do d ← select o c; ok (after_select o d))

abbrev pub then_sent : List Text → Result MenuTurn → Result MenuTurn
then_sent first rest = do u ← rest; ok (record u { sent = first ++ u.sent })

-- At the end of the list the menu waits for the next option.
unfoldable pub open_menu : List Choice → Client → Result MenuTurn
open_menu [] c = ok (record { client = c; sent = []; flow = again })
open_menu (o ∷ os) c = do
  t ← menu_round o c
  elim t.flow [ again ↦ then_sent t.sent (open_menu os t.client) | left ↦ ok t | exited ↦ ok t ]
