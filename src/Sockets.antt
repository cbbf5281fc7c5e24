-- ===== src/Sockets.antt =====
-- `Sockets. Interprocess communication`: a server of commands, server.c, and its client, client.c.
pub mod Text
pub mod Server
pub mod Client
pub mod Exchange
mod Tests
