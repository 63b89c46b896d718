-- ===== src/Tests.antt =====
-- Runs at concrete inputs, after tests/test_termsync.c, and the theorems at inputs that meet their
-- hypotheses.
mod Operations
mod Documents
mod Clients
mod Protocols
mod Servers
mod Dispatches
mod Terminals
mod Threads
mod Lines
mod Autosaves
mod Links
mod Printed
