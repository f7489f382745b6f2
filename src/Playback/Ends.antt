-- ===== src/Playback/Ends.antt =====
-- src/common/speak_queue.c: how often the end of a message is reported.
use speechd.Base.{
  ℕ, suc, ◌+◌, ◌≤◌, Bool, true, false, not, ◌&&◌, ◌||◌, Option, List, [], ◌∷◌, arith, if◌then◌else◌,
}
use speechd.Playback.{
  Output, report_begin, report_end, Shared, is_speaking, module_speak_queue_reset,
  playback_queue_push, playback_queue_pop, clear_playback_queue,
}
use speechd.Playback.Calls.{
  module_speak_queue_before_synth, module_speak_queue_before_play, module_speak_queue_add_end,
  module_speak_queue_add_audio, module_speak_queue_add_mark, module_speak_queue_add_sound_icon,
  module_speak_queue_flush, module_speak_queue_stop, module_speak_queue_pause,
  module_speak_queue_terminate, module_speak_queue_free, Call, perform,
}
use speechd.Playback.Player.{
  PlayerAt, handling, at_end, began, finishing, SoundFile, send_track, send_file, end_audio,
  wake_up, handle, play,
}
use speechd.Playback.Stopper.{StopperAt, take_request, halt}
use speechd.Playback.Threads.{
  System, Reach, Reach-keeps, player_step, stopper_step, caller_step, logged,
}

abbrev pub begins : List Output → ℕ
begins [] = 0
begins (report_begin ∷ log) = suc (begins log)
begins (_ ∷ log) = begins log

abbrev pub ends : List Output → ℕ
ends [] = 0
ends (report_end ∷ log) = suc (ends log)
ends (_ ∷ log) = ends log

-- The thread may still come to the end flag of the message.
abbrev may_end : PlayerAt → Bool
may_end (handling e) = true
may_end at_end = true
may_end _ = false

-- An end that may still be reported for a begin that was.
abbrev to_come : Shared → PlayerAt → ℕ
to_come m began = 0
to_come m p = if is_speaking m.phase && (not m.stop_requested || may_end p) then 1 else 0

abbrev finishing_of : PlayerAt → ℕ
finishing_of finishing = 1
finishing_of _ = 0

abbrev pub IsEnded : Shared → PlayerAt → List Output → Type 0
IsEnded m p log = ends log + finishing_of p + to_come m p ≤ begins log

perform-IsEnded :
    (c : Call) (m : Shared) (p : PlayerAt) (log : List Output)
    → IsEnded m p log
    → IsEnded (perform c m) p log
unfolding perform module_speak_queue_before_synth module_speak_queue_before_play
    module_speak_queue_reset playback_queue_push module_speak_queue_add_end
    module_speak_queue_add_audio module_speak_queue_add_mark module_speak_queue_add_sound_icon
    module_speak_queue_flush module_speak_queue_stop module_speak_queue_pause
    module_speak_queue_terminate module_speak_queue_free clear_playback_queue
perform-IsEnded c m p log i = ground arith

play-IsEnded :
    (sf_open : List ℕ → Option SoundFile) (p : PlayerAt) (m : Shared) (log : List Output)
    → IsEnded m p log
    → IsEnded
        (play sf_open p m).shared
        (play sf_open p m).place
        (logged (play sf_open p m).events log)
unfolding play handle wake_up send_track send_file end_audio playback_queue_pop
play-IsEnded sf_open p m log i = ground arith

halt-IsEnded :
    (q : StopperAt) (m : Shared) (p : PlayerAt) (log : List Output)
    → IsEnded m p log
    → IsEnded (halt q m).shared p (logged (halt q m).events log)
unfolding halt take_request clear_playback_queue module_speak_queue_reset
halt-IsEnded q m p log i = ground arith

Reach-IsEnded :
    {sf_open : List ℕ → Option SoundFile} {chunk maxsize : ℕ} {has_audio : Bool} {s : System}
    → Reach sf_open chunk has_audio maxsize s
    → IsEnded s.shared s.player s.log
unfolding player_step stopper_step caller_step
Reach-IsEnded {sf_open} =
    Reach-keeps (omega arith) (λ s i. play-IsEnded sf_open s.player s.shared s.log i)
      (λ s i. halt-IsEnded s.stopper s.shared s.player s.log i)
      (λ c s small. perform-IsEnded c s.shared s.player s.log)

-- In every reachable state, whatever is called and in whatever order the threads run, the server was
-- told of at most as many ends of messages as of begins.
pub ends_le_begins :
    {sf_open : List ℕ → Option SoundFile} {chunk maxsize : ℕ} {has_audio : Bool} {s : System}
    → Reach sf_open chunk has_audio maxsize s
    → ends s.log ≤ begins s.log
ends_le_begins {s} r = ground (arith, Reach-IsEnded r)
