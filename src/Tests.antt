-- ===== src/Tests.antt =====
-- The theorems applied to concrete states, by the part of the program they are about.
mod Allocator
mod Aliases
mod Framing
mod Session
mod Exchange
mod Codec
