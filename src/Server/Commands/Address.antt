-- ===== src/Server/Commands/Address.antt =====
-- The address and the port of a CLIENT message.
use client_server_signaling.Base.{
  ◌≡◌, refl, arith, Text, codes, some, ◌∷◌, ◌++◌, if◌then◌else◌, ltb, length, ℤ,
}
use client_server_signaling.Fault.{ok, err, overflow}
use client_server_signaling.Wire.{ip_size, scan_int}
use client_server_signaling.Wire.Words.{IsWord, scan_word-append, literal-append}
use client_server_signaling.Wire.Named.{named}
use client_server_signaling.Server.Session.{Session}
use client_server_signaling.Server.Commands.{scan_client}

-- An address of 15 bytes or more is written past the end of `client_ip_address`; a shorter one is
-- stored, and the port with it.
pub scan_client-address :
    (s : Session) (ip rest : Text) (port : ℤ)
    → IsWord ip
    → scan_int (32 ∷ rest) ≡ some (ok port)
    → scan_client s (named (codes "CLIENT") ip rest) ≡ (
        if ltb (length ip) ip_size
        then ok (record s { client_ip_address = ip; client_port_int = port })
        else err overflow)
unfolding scan_client
scan_client-address s ip rest port hw hp =
    rw
      (
        literal-append (codes "CLIENT") (32 ∷ ip ++ (32 ∷ rest)),
        scan_client,
        scan_word-append ip (32 ∷ rest) hw refl,
        hp,
      )
      (ground arith)
