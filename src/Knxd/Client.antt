-- ===== src/Knxd/Client.antt =====
-- src/knxd/knxd_client.{h,cpp}: the connection to knxd. The system calls are the parameter `Os`.
pub mod Os
pub mod Reading
pub mod Writing
pub mod Connection
pub mod Telegrams
pub mod Interface
