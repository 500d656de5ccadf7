-- ===== src/Tests.antt =====
-- Runs of the code on concrete inputs, and the theorems applied there.
mod Sample
mod Files
mod Requests
mod Writes
mod Auth
mod Search
mod Config
mod Login
mod Metrics
mod Server
mod Saves
