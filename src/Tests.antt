-- ===== src/Tests.antt =====
-- Runs of the code on concrete data, and the theorems applied to such data.
mod World
mod Codec
mod Storage
mod Tx
mod Auth
mod Config
mod Http
mod Userspaces
mod Threads
mod Life
