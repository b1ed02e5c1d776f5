-- ===== src/Client.antt =====
-- A client of a tuple space: src/ts/ts.c.
pub mod Transport
pub mod Requests
pub mod Replies
pub mod Rounds
pub mod Answers
pub mod Opening
