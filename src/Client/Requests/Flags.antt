-- ===== src/Client/Requests/Flags.antt =====
-- How the requests change the client's flags, on every path.
use client_server_signaling.Base.{
  ◌≡◌, arith, Text, Bool, true, false, Option, none, some, List, if◌then◌else◌, ℤ,
}
use client_server_signaling.Fault.{ok, >>=-eq-ok}
use client_server_signaling.Client.State.{Client, Reply, Done}
use client_server_signaling.Client.Requests.{pack, exchange, register_request, sign_up_login_user}

-- Whether an answer came.
abbrev pub was_answered : Reply → Bool
was_answered r = elim r.received [ none ↦ false | some _ ↦ r.send_ok ]

abbrev pub has_text : Option Text → Bool
has_text none = false
has_text (some s) = true

exchange-answered :
    (request : Text) (r : Reply) (x : Option Text × List Text)
    → exchange request r ≡ ok x
    → has_text x.0 ≡ was_answered r
unfolding exchange
exchange-answered request r x h = let (m, _, h') = >>=-eq-ok (pack request) _ h in ground arith

-- A sign-up and a login alike set `isLogin` on any answer, whatever it says, the empty one of a
-- closed connection included; without an answer the flag stays. Both keep the typed names.
pub sign_up_login_user-is_login :
    (option : ℤ) (username password : Text) (r : Reply) (c : Client) (d : Done)
    → sign_up_login_user option username password r c ≡ ok d
    → (d.client.is_login ≡ (if was_answered r then true else c.is_login))
      × (d.client.username ≡ username)
      × (d.client.password ≡ password)
      × (d.client.running ≡ c.running)
unfolding sign_up_login_user
sign_up_login_user-is_login option username password r c d h =
    let request = register_request option username password in
    let (x, e, h') = >>=-eq-ok (exchange request r) _ h in
    let e' = exchange-answered request r x e in ground arith
