-- ===== src/Server/Output.antt =====
-- src/server/output.c: the requests to stop and to pause that go to the speaking module.
pub mod Frame
use speechd.Base.{Bool, true, false, none, some, [], ◌∷◌, if◌then◌else◌}
use speechd.Server.{State, emit, send_stop, send_pause, queue_stop, queue_flush, queue_pause}

-- `SEND_DATA("STOP\n")`
send_stop_command : State → State
send_stop_command s = if s.pipe_open then emit (send_stop ∷ []) s else s

unfoldable pub output_stop : State → State
unfolding send_stop_command
output_stop s = elim s.speaking_module [
  | none ↦ s
  | some m ↦
      if m.audio
      then if s.end_queued
        then emit (queue_stop ∷ []) s
        else send_stop_command (emit (queue_flush ∷ []) (record s { stop_requested = true }))
      else send_stop_command s
]

-- `SEND_DATA("PAUSE\n")`, with whether it went through.
send_pause_command : State → Bool × State
send_pause_command s = if s.pipe_open then (true, emit (send_pause ∷ []) s) else (false, s)

-- The result is false for the negative one, which the caller tests for.
unfoldable pub output_pause : State → Bool × State
unfolding send_pause_command
output_pause s = elim s.speaking_module [
  | none ↦ (true, s)
  | some m ↦
      if m.audio
      then if s.end_queued
        then (true, emit (queue_pause ∷ []) s)
        else send_pause_command (record s { pause_asked = true })
      else send_pause_command s
]
