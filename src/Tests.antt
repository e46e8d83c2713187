-- ===== src/Tests.antt =====
-- Runs of the model on concrete inputs, and instances of the theorems.
mod Util
mod Knxd
mod State
mod Session
mod CacheReader
mod Write
mod Login
mod Router
mod Client
mod Connect
mod Read
mod Reader
mod Server
mod Capacity
mod Main
mod Pool
mod Serving
mod Wire
