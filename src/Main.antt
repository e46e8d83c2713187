-- ===== src/Main.antt =====
-- src/main.cpp: the settings from the environment, and the process that supervises the others. The calls of
-- the system are the parameter `Processes`.
pub mod Processes
pub mod Settings
pub mod Supervisor
