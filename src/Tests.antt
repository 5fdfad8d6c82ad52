-- ===== src/Tests.antt =====
-- Concrete inputs on which the theorems are applied, by component.
mod Trees
mod Lists
mod Messages
mod Threads
mod Classes
mod Pool
mod LegacyPool
mod States
mod Blocks
