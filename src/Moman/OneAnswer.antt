-- ===== src/Moman/OneAnswer.antt =====
-- How often a client's connection is answered, over any history of the loop.
pub mod Count
pub mod Held
pub mod Completing
pub mod Answering
pub mod Handlers
pub mod Sockets
pub mod Losses
pub mod Serving
pub mod Rounds
pub mod Unanswered
pub mod Lost
pub mod Served
