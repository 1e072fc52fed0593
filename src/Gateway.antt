-- ===== src/Gateway.antt =====
-- Package gateway: the message protocol, connections, requests in flight and the client.
pub mod Message
pub mod Wire
pub mod Stream
pub mod Decoder
pub mod Codec
pub mod Sync
pub mod Log
pub mod Marks
pub mod Ring
pub mod Pool
pub mod Tls
pub mod Ip
pub mod Singleton
pub mod Client
pub mod Reader
