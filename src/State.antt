-- ===== src/State.antt =====
-- src/state: the telegram caches and the session store.
pub mod Position
pub mod GroupCache
pub mod SharedGroupCache
pub mod SessionStore
