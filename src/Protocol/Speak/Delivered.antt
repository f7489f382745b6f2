-- ===== src/Protocol/Speak/Delivered.antt =====
-- A text that the server sends is the text that the module is given.
use speechd.Base.{ℕ, ◌==◌, Bool, true, not, ◌&&◌, List, if◌then◌else◌}
use speechd.Base.Text.{codes, same_bytes}
use speechd.Types.{MessageType, msg_text}
use speechd.Protocol.Speak.{names_space}
use speechd.Protocol.Speak.Lines.{line_ends}

-- A text with no line end, if it is not for a message of type text.
abbrev is_plain : MessageType → List ℕ → Bool
is_plain msg_text text = true
is_plain _ text = line_ends text == 0

-- A space survives for a key or a character, and the word space for the others.
abbrev survives : MessageType → List ℕ → Bool
survives type text =
    if same_bytes text (codes " ")
    then names_space type
    else not (names_space type && same_bytes text (codes "space"))
