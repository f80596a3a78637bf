-- ===== src/Tests.antt =====
-- Runs of the model at concrete inputs, and applications of the theorems to them.
mod Moments
mod Archives
mod Formats
mod Configurations
mod Parses
mod Buffers
mod Clients
mod Documents
mod Messages
mod Scans
mod Threads
mod Tokens
