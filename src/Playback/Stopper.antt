-- ===== src/Playback/Stopper.antt =====
-- src/common/speak_queue.c: the thread that carries out a stop or a pause.
use speechd.Base.{true, false, [], ◌∷◌, if◌then◌else◌}
use speechd.Playback.{
  Phase, PauseState, mark_reported, Shared, audio_stop, cancel_synth, report_pause, report_stop,
  module_speak_queue_reset, clear_playback_queue,
}
use speechd.Playback.Player.{Done, done}

-- Where the thread stands in `speak_queue_stop_or_pause`.
pub data StopperAt : Type 0 where
  top : StopperAt  -- the test of the outer loop
  waiting : StopperAt  -- in the wait for a request
  woken : StopperAt  -- before the test of module_audio_id
  silencing : StopperAt  -- before the first spd_audio_stop
  hushing : StopperAt  -- the loop that stops the audio until the playback thread sleeps
  lulling : StopperAt  -- the wait for the playback thread, with no audio
  cancelling : StopperAt  -- before module_speak_queue_cancel
  clearing : StopperAt
  resetting : StopperAt
  telling : PauseState → StopperAt  -- before the report, with save_pause_state
  gone : StopperAt

-- From the wait for a request up to the unlock, or to the next wait.
unfoldable pub take_request : Shared → Done StopperAt
take_request m =
    if m.stop_requested
    then (if m.close_requested
        then done (record m { stop_or_pause_sleeping = false }) gone []
        else done (record m { stop_or_pause_sleeping = false }) woken [])
    else done m waiting []

unfoldable pub halt : StopperAt → Shared → Done StopperAt
halt top m =
    if m.close_requested
    then done m gone []
    else take_request (record m { stop_or_pause_sleeping = true })
halt waiting m = take_request m
halt woken m =
    if m.has_audio then done (record m { phase = Phase.idle }) silencing [] else done m lulling []
halt silencing m = done m hushing (audio_stop ∷ [])
halt hushing m = if m.play_sleeping then done m cancelling [] else done m hushing (audio_stop ∷ [])
halt lulling m = if m.play_sleeping then done m cancelling [] else done m lulling []
halt cancelling m = done m clearing (cancel_synth ∷ [])
halt clearing m = done (clear_playback_queue m) resetting []
halt resetting m = done (module_speak_queue_reset m) (telling m.pause_state) []
halt (telling p) m = elim p [
  | mark_reported ↦ done m top (report_pause ∷ [])
  | _ ↦ done m top (report_stop ∷ [])
]
halt gone m = done m gone []
