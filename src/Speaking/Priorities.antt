-- ===== src/Speaking/Priorities.antt =====
-- src/server/speaking.c: what a new message does to the messages that wait (`resolve_priorities`).
pub mod Table
pub mod Aside
use speechd.Base.{
  ℕ, ◌==◌, Bool, true, false, not, ◌&&◌, Option, none, some, List, [], ◌∷◌, ◌++◌, last?, drop_last,
  if◌then◌else◌,
}
use speechd.Types.{Priority, important, message, text, notification, progress, same_priority}
use speechd.Message.{Message}
use speechd.Server.{Effect, Queues, State, emit}
use speechd.Server.Output.{output_stop}
use speechd.Speaking.Queue.{empty_queue, empty_queue_by_time, stop_priority_from_uid}

abbrev pub get_in : Priority → Queues → List Message
get_in important q = q.p1
get_in message q = q.p2
get_in text q = q.p3
get_in notification q = q.p4
get_in progress q = q.p5

-- `speaking_get_queue`
abbrev pub speaking_get_queue : Priority → State → List Message
speaking_get_queue p s = get_in p s.queues

abbrev set_in : Priority → List Message → Queues → Queues
set_in important l q = record q { p1 = l }
set_in message l q = record q { p2 = l }
set_in text l q = record q { p3 = l }
set_in notification l q = record q { p4 = l }
set_in progress l q = record q { p5 = l }

-- `speaking_set_queue`
abbrev pub speaking_set_queue : Priority → List Message → State → State
speaking_set_queue p l s = record s { queues = set_in p l s.queues }

-- `highest_priority == priority`
abbrev pub is_highest : Priority → State → Bool
is_highest p s = elim s.highest_priority [ none ↦ false | some h ↦ same_priority h p ]

-- The queue is read before the module is stopped, and written back behind it.
abbrev stop_if_highest : Priority → State → State
stop_if_highest p s = if is_highest p s then output_stop s else s

unfoldable pub stop_priority : Priority → State → State
stop_priority p s =
    let (queue, es) = empty_queue (speaking_get_queue p s) in
    speaking_set_queue p queue (emit es (stop_if_highest p s))

unfoldable pub stop_priority_older_than : Priority → ℕ → State → State
stop_priority_older_than p uid s =
    let (queue, es) = empty_queue_by_time (speaking_get_queue p s) uid in
    speaking_set_queue p queue (emit es (stop_if_highest p s))

-- One of the five assignments of `stop_from_uid`.
unfoldable pub stop_from_uid_in : Priority → ℕ → State → State
stop_from_uid_in p uid s =
    let (queue, es) = stop_priority_from_uid (speaking_get_queue p s) uid in
    speaking_set_queue p queue (emit es s)

unfoldable pub stop_from_uid : ℕ → State → State
stop_from_uid uid s = stop_from_uid_in progress uid (
    stop_from_uid_in notification uid
      (stop_from_uid_in text uid (stop_from_uid_in message uid (stop_from_uid_in important uid s))))

-- The loop of `stop_priority_except_first`: the messages of other blocks are dropped in silence.
pub keep_block : ℕ → List Message → List Message
keep_block gid [] = []
keep_block gid (m ∷ queue) =
    let rest = keep_block gid queue in if m.settings.reparted == gid then m ∷ rest else rest

-- What `stop_priority_except_first` does once it has looked at the last message of the queue.
except_first_of : Priority → Message → State → State
unfolding stop_priority
except_first_of p m s =
    let gid = m.settings.reparted in
    if gid == 0
    then speaking_set_queue p (m ∷ [])
        (stop_priority p (speaking_set_queue p (drop_last (speaking_get_queue p s)) s))
    else speaking_set_queue p (keep_block gid (speaking_get_queue p s))
        (if is_highest p s && not (s.speaking_gid == gid) then output_stop s else s)

unfoldable pub stop_priority_except_first : Priority → State → State
unfolding except_first_of
stop_priority_except_first p s = elim (last? (speaking_get_queue p s)) [
  | none ↦ s
  | some m ↦ except_first_of p m s
]

-- The branch for `SPD_PROGRESS`: only the last progress message stays while something is spoken.
-- The emptied queue is overwritten by the cell of the last message.
keep_last_progress : State → State
keep_last_progress s = elim (last? s.queues.p5) [
  | none ↦ s
  | some m ↦
      let (queue, es) = empty_queue (drop_last s.queues.p5) in
      speaking_set_queue progress (m ∷ []) (emit es (speaking_set_queue progress queue s))
]

unfoldable pub resolve_priorities : Priority → State → State
unfolding keep_last_progress
resolve_priorities important s = stop_priority progress (
    stop_priority notification
      (if s.speaking && not (is_highest important s) then output_stop s else s))
resolve_priorities message s = stop_priority progress (
    stop_priority notification (
      stop_priority text (
        if s.speaking && (not (is_highest important s) && not (is_highest message s))
        then output_stop s
        else s)))
resolve_priorities text s =
    stop_priority progress (stop_priority notification (stop_priority_except_first text s))
resolve_priorities notification s =
    let t = stop_priority_except_first notification s in
    if t.speaking && not (is_highest notification t) then stop_priority notification t else t
resolve_priorities progress s =
    let t = stop_priority notification s in if t.speaking then keep_last_progress t else t
