-- ===== src/Protocol/Audio/Stream.antt =====
-- The audio that a module writes to its pipe is what the server takes from it.
use speechd.Base.{ℕ, ◌≡◌, some, List, ◌++◌}
use speechd.Protocol.{lines_of, output_read_message}

-- The server takes these bytes from the pipe as one message, or as the rest of one.
abbrev Takes : List ℕ → Type 0
Takes m =
    (rstr rest : List ℕ)
    → output_read_message (lines_of (m ++ rest)) rstr ≡ some (rstr ++ m, lines_of rest)
