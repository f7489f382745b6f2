-- ===== src/Parse.antt =====
-- src/server/parse.c: the parser of the protocol, with the reading of lines in src/server/server.c.
pub mod Dots
pub mod Data
pub mod Param
pub mod Command
pub mod Block
pub mod Set
