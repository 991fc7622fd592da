-- ===== src/Wire.antt =====
-- src/common/media_types.h and the `TcpWire` header of src/transport/transport_server.h: the
-- frames that the parts exchange, and the byte layouts on the wire.
pub mod Bytes
pub mod Media
pub mod Udp
pub mod Tcp
pub mod RoundTrip
mod Tests
