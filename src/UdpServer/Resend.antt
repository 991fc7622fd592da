-- ===== src/UdpServer/Resend.antt =====
-- From a NACK datagram to the packets that the server sends again.
use rtstream.Wire.Bytes.{Bytes}
use rtstream.Wire.Udp
use rtstream.Wire.Udp.{magic_ok}
use rtstream.UdpServer.{UdpServer}
