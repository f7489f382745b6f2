-- ===== src/Speaking/Choose.antt =====
-- src/server/speaking.c: which waiting message is spoken next.
pub mod First
use speechd.Base.{ℕ, ◌==◌, Bool, true, false, not, Option, none, some, List, [], ◌∷◌, if◌then◌else◌}
use speechd.Types.{Priority, important, message, text, notification, progress}
use speechd.Message.{Message, Settings}
use speechd.Server.{State}
use speechd.Server.Clients.{get_client_settings_by_fd}
use speechd.Speaking.Priorities.{speaking_get_queue, speaking_set_queue}

-- `message_nto_speak`, by the descriptor of the message: the client on it is paused. A client that
-- is gone is not.
pub is_held_on : State → Option ℕ → Bool
is_held_on s none = false
is_held_on s (some fd) = elim (get_client_settings_by_fd s fd) [
  | none ↦ false
  | some c ↦ not (c.paused == 0)
]

unfoldable pub message_nto_speak : State → Message → Bool
unfolding is_held_on
message_nto_speak s m = is_held_on s m.settings.fd

-- The inner loop of `get_message_from_queues`: the first message that may be spoken, and the queue
-- without its cell.
take_first : State → List Message → Option (Message × List Message)
take_first s [] = none
take_first s (m ∷ queue) =
    let later = take_first s queue in
    if message_nto_speak s m
    then elim later [ none ↦ none | some (x, rest) ↦ some (x, m ∷ rest) ]
    else some (m, queue)

-- The outer loop, over the priorities that are left.
scan : List Priority → State → Option Message × State
scan [] s = (none, s)
scan (p ∷ ps) s = elim (take_first s (speaking_get_queue p s)) [
  | none ↦ scan ps s
  | some (m, rest) ↦ (some m, record (speaking_set_queue p rest s) { highest_priority = some p })
]

abbrev pub priorities : List Priority
priorities = important ∷ message ∷ text ∷ notification ∷ progress ∷ []

-- `get_message_from_queues`
pub get_message_from_queues : State → Option Message × State
unfolding scan take_first
get_message_from_queues s = scan priorities s
