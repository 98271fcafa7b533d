-- ===== src/Net.antt =====
-- Networking/: the frame format of the data channel, signaling, and the transports.
pub mod TransportPacketCodec
pub mod RtcSignaling
pub mod Transport
pub mod KcpRtcTransport
pub mod LoopbackTransport
pub mod MultiClientLoopbackTransport
mod Tests
mod HubTests
