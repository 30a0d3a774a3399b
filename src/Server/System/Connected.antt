-- ===== src/Server/System/Connected.antt =====
-- Which sockets the server has used, however its threads interleave.
use client_server_signaling.Base.{◌≡◌, List, [], ◌∷◌, ◌⊎◌, ℤ, minus_one, All}
use client_server_signaling.UserStore.{UserStore}
use client_server_signaling.Server.Commands.Sockets.{Opened, Stored}
use client_server_signaling.Server.System.{Thread, System}
use client_server_signaling.Server.System.Sockets.{Keeps}
use client_server_signaling.Server.System.Grows.{Grows}

-- `connect` has been called on the socket by one of the threads.
abbrev pub Connected : ℤ → List Thread → Type 0
Connected fd [] = ⊥
Connected fd (t ∷ ts) = Opened fd t.actions ⊎ Connected fd ts

-- The number of no socket, or of one that the server has connected.
abbrev pub Known : List Thread → ℤ → Type 0
Known ts fd = (fd ≡ minus_one) ⊎ Connected fd ts

record IsAimed (s : System) : Type 0 where
  threads : All (Keeps (Known s.threads)) s.threads
  stored : Stored (Known s.threads) s.users
