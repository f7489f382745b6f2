-- ===== src/Speaking/Stop.antt =====
-- src/server/speaking.c: stopping and cancelling.
pub mod Trim
pub mod Block
pub mod Returns
pub mod Others
pub mod Cancel
use speechd.Base.{
  ℕ, zero, suc, ◌==◌, Bool, true, false, not, ◌&&◌, Option, none, some, List, [], ◌∷◌, length,
  last?, drop_last, if◌then◌else◌,
}
use speechd.Types.{Priority, important, message, text, notification, progress}
use speechd.Message.{Message}
use speechd.Server.{State, Run, done, fault, assertion, ◌>>=◌}
use speechd.Server.Output.{output_stop}
use speechd.Speaking.Priorities.{
  speaking_get_queue, speaking_set_queue, stop_priority, stop_from_uid,
}

-- `get_speaking_client_uid`
pub get_speaking_client_uid : State → ℕ × State
get_speaking_client_uid s =
    if s.speaking then (s.speaking_uid, s) else (0, record s { speaking_uid = 0 })

-- The assertion in `speaking_get_queue`: `highest_priority` is 0 until a message was chosen.
pub asserted_priority : State → Run Priority
asserted_priority s = elim s.highest_priority [ none ↦ fault assertion | some p ↦ done p ]

-- The loops at the end of `speaking_stop` and `speaking_stop_all`: the last message is taken off as
-- long as it passes the test. A message is freed, and its client is not notified.
pub trim_last : (Message → Bool) → ℕ → List Message → List Message
trim_last test zero queue = queue
trim_last test (suc fuel) queue = elim (last? queue) [
  | none ↦ queue
  | some m ↦ elim (test m) [ true ↦ trim_last test fuel (drop_last queue) | false ↦ queue ]
]

-- One round for each message, and one to see that none is left.
pub trim : (Message → Bool) → List Message → List Message
trim test queue = trim_last test (suc (length queue)) queue

-- `(msg->settings.reparted == gid) && (msg->settings.uid == uid)`
abbrev pub of_block : ℕ → ℕ → Message → Bool
of_block gid uid m = m.settings.reparted == gid && m.settings.uid == uid

-- `speaking_stop`, once the module was stopped: the rest of the block goes, if the last message of
-- the queue is of a block of this client.
pub stop_block : ℕ → Priority → State → State
unfolding trim
stop_block uid p s = elim (last? (speaking_get_queue p s)) [
  | none ↦ s
  | some m ↦
      if not (m.settings.reparted == 0) && m.settings.uid == uid
      then speaking_set_queue p (trim (of_block m.settings.reparted uid) (speaking_get_queue p s)) s
      else s
]

-- `speaking_stop`, when the client is the one that speaks.
pub stop_speaker : ℕ → State → Run State
unfolding asserted_priority stop_block
stop_speaker uid s = do
  p ← asserted_priority (output_stop s)
  done (stop_block uid p (output_stop s))

pub speaking_stop : ℕ → State → Run State
unfolding get_speaking_client_uid stop_speaker
speaking_stop uid s =
    let (speaker, s') = get_speaking_client_uid s in
    if speaker == uid then stop_speaker uid s' else done s'

-- The same in `speaking_stop_all`, where the block number is compared with 1.
stop_all_block : Priority → State → State
unfolding trim
stop_all_block p s = elim (last? (speaking_get_queue p s)) [
  | none ↦ s
  | some m ↦
      if m.settings.reparted == 0
      then s
      else speaking_set_queue p (trim (λ x. x.settings.reparted == 1) (speaking_get_queue p s)) s
]

pub speaking_stop_all : State → Run State
unfolding asserted_priority stop_all_block
speaking_stop_all s = do
  p ← asserted_priority (output_stop s)
  done (stop_all_block p (output_stop s))

pub speaking_cancel : ℕ → State → Run State
unfolding speaking_stop
speaking_cancel uid s = do s' ← speaking_stop uid s; done (stop_from_uid uid s')

pub speaking_cancel_all : State → State
speaking_cancel_all s = stop_priority progress (
    stop_priority notification
      (stop_priority text (stop_priority message (stop_priority important (output_stop s)))))
