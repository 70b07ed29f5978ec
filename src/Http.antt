-- ===== src/Http.antt =====
-- HTTPPacket.h and HTTPPacket.cpp: reading requests, writing requests and responses.
pub mod Packet
pub mod Parser
pub mod Message
pub mod ContentType
pub mod Namespaces
