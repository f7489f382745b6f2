-- ===== src/Playback/PauseMark.antt =====
-- src/common/speak_queue.c: where a pause takes place, and how often pauses, begins and ends are reported.
use speechd.Base.{
  ℕ, suc, ◌+◌, ◌≤◌, ◌≡◌, Bool, true, false, Option, List, [], ◌∷◌, arith, refl, if◌then◌else◌,
}
use speechd.Playback.{
  PauseState, mark_reported, Output, audio_feed, report_mark, report_pause, Shared,
  module_speak_queue_reset, playback_queue_push, playback_queue_pop, clear_playback_queue,
}
use speechd.Playback.Calls.{
  module_speak_queue_before_synth, module_speak_queue_before_play, module_speak_queue_add_end,
  module_speak_queue_add_audio, module_speak_queue_add_mark, module_speak_queue_add_sound_icon,
  module_speak_queue_flush, module_speak_queue_stop, module_speak_queue_pause,
  module_speak_queue_terminate, module_speak_queue_free, Call, perform,
}
use speechd.Playback.Player.{
  PlayerAt, mark_told, SoundFile, send_track, send_file, end_audio, wake_up, handle, play,
  is_spd_mark,
}
use speechd.Playback.Stopper.{StopperAt, telling, take_request, halt}
use speechd.Playback.Threads.{
  System, Reach, Reach-keeps, player_step, stopper_step, caller_step, logged,
}
use speechd.Playback.Sleeping.{is_free}

-- Whether the last that was played is an index mark that the server put into the text.
abbrev pub pause_heard : List Output → Bool
pause_heard [] = false
pause_heard (audio_feed t f ∷ log) = false
pause_heard (report_mark mark ∷ log) = is_spd_mark mark
pause_heard (_ ∷ log) = pause_heard log

-- The reported marks of the server, and the reported pauses.
abbrev pub spd_marks : List Output → ℕ
spd_marks [] = 0
spd_marks (report_mark mark ∷ log) = (if is_spd_mark mark then 1 else 0) + spd_marks log
spd_marks (_ ∷ log) = spd_marks log

abbrev pub pauses : List Output → ℕ
pauses [] = 0
pauses (report_pause ∷ log) = suc (pauses log)
pauses (_ ∷ log) = pauses log

-- A mark that was reported and for which no pause was reported yet.
abbrev owed : PauseState → ℕ
owed mark_reported = 1
owed _ = 0

abbrev owed_by_player : PlayerAt → ℕ
owed_by_player (mark_told mark) = if is_spd_mark mark then 1 else 0
owed_by_player _ = 0

abbrev owed_by_stopper : StopperAt → ℕ
owed_by_stopper (telling p) = owed p
owed_by_stopper _ = 0

abbrev pub Told : PlayerAt → List Output → Type 0
Told (mark_told mark) log = pause_heard log ≡ is_spd_mark mark
Told _ log = Unit

pub record IsAtMark (m : Shared) (p : PlayerAt) (q : StopperAt) (log : List Output) : Type 0 where
  pub told : Told p log
  pub stands : m.pause_state ≡ mark_reported → m.stop_requested ≡ true
  pub free : m.pause_state ≡ mark_reported → is_free p ≡ true
  pub heard : m.pause_state ≡ mark_reported → pause_heard log ≡ true
  pub counted :
      pauses log + owed m.pause_state + owed_by_player p + owed_by_stopper q ≤ spd_marks log

perform-IsAtMark :
    (c : Call) (m : Shared) {p : PlayerAt} {q : StopperAt} {log : List Output}
    → IsAtMark m p q log
    → IsAtMark (perform c m) p q log
unfolding perform module_speak_queue_before_synth module_speak_queue_before_play
    module_speak_queue_reset playback_queue_push module_speak_queue_add_end
    module_speak_queue_add_audio module_speak_queue_add_mark module_speak_queue_add_sound_icon
    module_speak_queue_flush module_speak_queue_stop module_speak_queue_pause
    module_speak_queue_terminate module_speak_queue_free clear_playback_queue
perform-IsAtMark c m i = record {
  told = i.told;
  stands = λ e. ground (arith, i.stands);
  free = λ e. ground (arith, i.free);
  heard = λ e. ground (arith, i.heard);
  counted = ground (arith, i.counted);
}

play-IsAtMark :
    (sf_open : List ℕ → Option SoundFile) (p : PlayerAt) (m : Shared) {q : StopperAt}
    {log : List Output}
    → IsAtMark m p q log
    → IsAtMark
        (play sf_open p m).shared
        (play sf_open p m).place
        q
        (logged (play sf_open p m).events log)
unfolding play handle wake_up send_track send_file end_audio playback_queue_pop
play-IsAtMark sf_open p m i = record {
  told = ground (arith, i.told);
  stands = λ e. ground (arith, i.stands);
  free = λ e. ground (arith, i.stands, i.free);
  heard = λ e. ground (arith, i.told, i.stands, i.free, i.heard);
  counted = ground (arith, i.counted);
}

halt-IsAtMark :
    (q : StopperAt) (m : Shared) {p : PlayerAt} {log : List Output}
    → IsAtMark m p q log
    → IsAtMark (halt q m).shared p (halt q m).place (logged (halt q m).events log)
unfolding halt take_request clear_playback_queue module_speak_queue_reset
halt-IsAtMark q m {p} i = record {
  told = ground (arith, i.told);
  stands = λ e. ground (arith, i.stands);
  free = λ e. ground (arith, i.free);
  heard = λ e. ground (arith, i.heard);
  counted = ground (arith, i.counted);
}

-- In every reachable state: when the playback thread has stopped for a pause, the last that was played
-- is an index mark whose name begins with __spd_, the request to stop stands and the thread has no entry
-- in its hands; and pauses are reported at most as often as such marks were.
pub Reach-IsAtMark :
    {sf_open : List ℕ → Option SoundFile} {chunk maxsize : ℕ} {has_audio : Bool} {s : System}
    → Reach sf_open chunk has_audio maxsize s
    → IsAtMark s.shared s.player s.stopper s.log
unfolding player_step stopper_step caller_step
Reach-IsAtMark {sf_open} =
    Reach-keeps {P = λ s. IsAtMark s.shared s.player s.stopper s.log}
      (record {
        told = tt;
        stands = λ e. ground arith;
        free = λ e. refl;
        heard = λ e. ground arith;
        counted = omega arith;
      })
      (λ s i. play-IsAtMark sf_open s.player s.shared {log = s.log} i)
      (λ s i. halt-IsAtMark s.stopper s.shared {log = s.log} i)
      (λ c s small. perform-IsAtMark c s.shared)
