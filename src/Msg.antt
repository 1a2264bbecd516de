-- ===== src/Msg.antt =====
-- src/lib/msg.cpp: the two messages, commands and responses, and their JSON forms.
pub mod Cmd
pub mod Response
pub mod RoundTrip
