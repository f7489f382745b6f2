-- ===== src/Speaking/Loop/Returns.antt =====
-- src/server/speaking.c: when a round of speak() does not end the server.
use speechd.Message.{Message}
