-- ===== src/Speaking/Queue.antt =====
-- src/server/speaking.c: the loops that take messages out of one queue, with the notifications that
-- they send. A pointer to a cell of a GList is the index of the cell.
pub mod Loops
use speechd.Base.{
  ℕ, zero, suc, ◌==◌, ltb, Bool, true, false, ◌||◌, Option, none, some, List, [], ◌∷◌, ◌++◌, length,
  get_elem?, remove_at, find_index, some_of,
}
use speechd.Message.{Message}
use speechd.Server.{Effect, Queues, State, cancel_report}

-- `queue_remove_message`. The first case is an assertion that fails.
pub queue_remove_message : List Message → ℕ → List Message × List Effect
queue_remove_message queue i = elim (get_elem? queue i) [
  | none ↦ (queue, [])
  | some m ↦ (remove_at i queue, cancel_report m)
]

empty_loop : ℕ → List Message → List Effect → List Message × List Effect
empty_loop zero queue sent = (queue, sent)
empty_loop (suc n) queue sent =
    let (rest, es) = queue_remove_message queue 0 in empty_loop n rest (sent ++ es)

-- `empty_queue`
pub empty_queue : List Message → List Message × List Effect
empty_queue queue = empty_loop (length queue) queue []

-- `msg->id < uid`
pub is_older : ℕ → Message → Bool
is_older uid m = ltb m.id uid

-- One round for each message there was; `i` is the cell that the round looks at.
by_time_loop : ℕ → ℕ → ℕ → List Message → List Effect → List Message × List Effect
by_time_loop uid zero i queue sent = (queue, sent)
by_time_loop uid (suc n) i queue sent = elim (get_elem? queue i) [
  | none ↦ (queue, sent)
  | some m ↦ elim (is_older uid m) [
    | true ↦ let (rest, es) = queue_remove_message queue i in by_time_loop uid n i rest (sent ++ es)
    | false ↦ by_time_loop uid n (suc i) queue sent
  ]
]

-- `empty_queue_by_time`
pub empty_queue_by_time : List Message → ℕ → List Message × List Effect
empty_queue_by_time queue uid = by_time_loop uid (length queue) 0 queue []

-- `compare_message_uid` and `message_has_uid` give 0.
unfoldable pub has_uid : ℕ → Message → Bool
has_uid uid m = m.settings.uid == uid

-- The `while` of `stop_priority_from_uid`: find the first message of the client, remove it.
from_uid_loop : ℕ → ℕ → List Message → List Effect → List Message × List Effect
from_uid_loop uid zero queue sent = (queue, sent)
from_uid_loop uid (suc fuel) queue sent = elim (find_index (has_uid uid) queue) [
  | none ↦ (queue, sent)
  | some i ↦
      let (rest, es) = queue_remove_message queue i in from_uid_loop uid fuel rest (sent ++ es)
]

-- `stop_priority_from_uid`. One round more than there are messages is enough.
pub stop_priority_from_uid : List Message → ℕ → List Message × List Effect
stop_priority_from_uid queue uid = from_uid_loop uid (suc (length queue)) queue []

-- `client_has_messages`
unfoldable pub client_has_messages : State → ℕ → Bool
client_has_messages s uid =
    some_of (has_uid uid) q.p5
    || (some_of (has_uid uid) q.p4
        || (some_of (has_uid uid) q.p3
            || (some_of (has_uid uid) q.p2 || some_of (has_uid uid) q.p1)))
  where
    q : Queues
    q = s.queues
