-- ===== src/Parse/Command/Said.antt =====
-- What becomes of a character, a key or a sound icon.
use speechd.Base.{ℕ, List, length}
use speechd.Types.{MessageType}
use speechd.Message.{Message}
use speechd.Server.{State}
use speechd.Parse.Command.{event_text}

-- The message that the server makes of the word.
abbrev pub event_message : Message → MessageType → List ℕ → State → Message
event_message blank type word s = record blank {
  addr = s.next_addr;
  buf = event_text type word;
  bytes = length (event_text type word);
}
