-- ===== src/Speaking/Enqueue/Kept.antt =====
-- What becomes of a message that a client sends.
use speechd.Base.{Bool, not, ◌&&◌}
use speechd.Types.{Priority, notification, same_priority}
use speechd.Message.{Message}
use speechd.Server.{State}
use speechd.Speaking.Priorities.{is_highest}

-- A notification is not kept while something that is no notification is spoken.
abbrev pub is_dropped : Priority → State → Bool
is_dropped p s = same_priority p notification && (s.speaking && not (is_highest notification s))
