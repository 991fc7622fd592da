-- ===== src/UdpReceiver/Missing.antt =====
-- What a receiver asks for, and what the server sends for it.
use rtstream.Prelude.{ℕ, ◌+◌, List, [], ◌∷◌, ◌++◌}
use rtstream.Prelude.Int.{ℤ}
use rtstream.Wire.Bytes.{Bytes}
use rtstream.Wire.Udp
use rtstream.Nack.Requests.{Request}
use rtstream.Sim.{Draw}
use rtstream.UdpServer.{ClientAddr, Datagram, UdpServer}
use rtstream.UdpServer.Control.{receive}

-- The missing fragments of a group, from slot `i` on.
unfoldable pub missing : ℕ → ℕ → List Bytes → List Request
missing gid i [] = []
missing gid i ([] ∷ ds) = (gid, i) ∷ missing gid (i + 1) ds
missing gid i ((b ∷ d) ∷ ds) = missing gid (i + 1) ds

-- What the server answers to the datagrams of a receiver, one after the other.
module _ (draws : ℕ → Draw) where
  unfoldable pub answers : ClientAddr → List Bytes → ℤ → UdpServer → List Datagram
  answers from [] now s = []
  answers from (d ∷ ds) now s =
      let one = receive draws from d now s in one.out ++ answers from ds now one.after
