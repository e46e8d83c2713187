-- ===== src/Knxd.antt =====
-- src/knxd: group addresses, the eibd wire protocol and the knxd connection.
pub mod Address
pub mod Message
pub mod Apdu
pub mod CacheReader
pub mod Client
pub mod Connector
