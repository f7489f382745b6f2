-- ===== src/Tests/Playback.antt =====
-- src/common/speak_queue.c: messages that are played, paused, stopped and cut off.
use speechd.Base.{ℕ, ◌≤◌, ◌≡◌, refl, Bool, true, false, Option, none, List, [], ◌∷◌, ◌++◌, arith}
use speechd.Base.Text.{codes}
use speechd.Playback.{
  Track, audio_le, audio_begin, audio_feed, report_begin, report_end, report_stop, report_mark,
  cancel_synth, audio_stop, audio_end, playback_queue_push, playback_queue_pop,
  clear_playback_queue, module_speak_queue_reset, mark_reported,
}
use speechd.Playback.Calls.{
  module_speak_queue_before_synth, module_speak_queue_before_play, module_speak_queue_add_end,
  module_speak_queue_add_audio, module_speak_queue_add_mark, module_speak_queue_add_sound_icon,
  module_speak_queue_flush, module_speak_queue_stop, module_speak_queue_pause,
  module_speak_queue_terminate, module_speak_queue_free, perform, Call, call_before_synth,
  call_before_play, call_add_audio, call_add_mark, call_add_end, call_pause, call_stop,
}
use speechd.Playback.Player.{
  SoundFile, play, handle, wake_up, send_track, send_file, end_audio, is_spd_mark,
}
use speechd.Playback.Stopper.{halt, take_request}
use speechd.Playback.Threads.{
  System, IsSmall, Reach, start, later, plays, stops, calls, started, player_step, stopper_step,
  caller_step, player_steps, stopper_steps,
}
use speechd.Playback.Account.{IsCounted, Reach-IsCounted}
use speechd.Playback.Sleeping.{IsRoused, Reach-IsRoused}
use speechd.Playback.PauseMark.{IsAtMark, Reach-IsAtMark}
use speechd.Playback.Ends.{begins, ends, ends_le_begins}
use speechd.Playback.Halting.{IsReset, stop_ends}
use speechd.Playback.NoAudio.{IsStuck, Follows, here, next, stop_never_ends}
use speechd.Playback.Order.{chunk, mark, IsPlaying, IsFinished, steps_of, plays_in_order}

-- No sound file can be opened.
abbrev no_files : List ℕ → Option SoundFile
no_files name = none

data Act : Type 0 where
  player stopper : Act
  caller : Call → Act

abbrev run : List Act → System → System
run [] s = s
run (player ∷ acts) s = run acts (player_step no_files s)
run (stopper ∷ acts) s = run acts (stopper_step s)
run (caller c ∷ acts) s = run acts (caller_step c s)

abbrev AreSmall : List Act → Type 0
AreSmall [] = Unit
AreSmall (caller c ∷ acts) = IsSmall 10 c × AreSmall acts
AreSmall (_ ∷ acts) = AreSmall acts

run-Reach :
    {has_audio : Bool} (acts : List Act) (s : System)
    → AreSmall acts
    → Reach no_files 10 has_audio 100 s
    → Reach no_files 10 has_audio 100 (run acts s)
run-Reach [] s h r = r
run-Reach (player ∷ acts) s h r = run-Reach acts (player_step no_files s) h (later r plays)
run-Reach (stopper ∷ acts) s h r = run-Reach acts (stopper_step s) h (later r stops)
run-Reach (caller c ∷ acts) s h r = run-Reach acts (caller_step c s) h.1 (later r (calls c h.0))

abbrev two_frames : Track
two_frames = record {
  bits = 16;
  num_channels = 1;
  sample_rate = 22050;
  num_samples = 2;
  samples = 1 ∷ 0 ∷ 2 ∷ 0 ∷ [];
}

abbrev spd_mark : List ℕ
spd_mark = codes "__spd_1"

-- A message of a mark, a chunk, and its end is in the queue, and the playback thread has begun it.
abbrev begun : List Act
begun =
    player
    ∷ stopper
    ∷ caller call_before_synth
    ∷ caller call_before_play
    ∷ caller (call_add_mark spd_mark)
    ∷ caller (call_add_audio two_frames audio_le)
    ∷ caller call_add_end
    ∷ player
    ∷ player
    ∷ player
    ∷ player
    ∷ []

abbrev at_begin : Bool → System
at_begin has_audio = run begun (started has_audio 100)

at_begin-Reach : (has_audio : Bool) → Reach no_files 10 has_audio 100 (at_begin has_audio)
at_begin-Reach has_audio =
    run-Reach begun (started has_audio 100) (tt, (tt, (tt, (omega arith, (tt, tt))))) start

-- Then a pause is asked for, and takes place at the mark.
abbrev at_mark : List Act
at_mark = begun ++ caller call_pause ∷ player ∷ player ∷ player ∷ []

paused : System
paused = run at_mark (started true 100)

paused-Reach : Reach no_files 10 true 100 paused
unfolding player_step stopper_step caller_step is_spd_mark play handle wake_up send_track send_file
    end_audio playback_queue_pop halt take_request perform module_speak_queue_before_synth
    module_speak_queue_before_play module_speak_queue_reset playback_queue_push
    module_speak_queue_add_end module_speak_queue_add_audio module_speak_queue_add_mark
    module_speak_queue_add_sound_icon module_speak_queue_flush module_speak_queue_stop
    module_speak_queue_pause module_speak_queue_terminate module_speak_queue_free
    clear_playback_queue paused
paused-Reach =
    run-Reach at_mark (started true 100) (tt, (tt, (tt, (omega arith, (tt, (tt, tt)))))) start

Reach-IsCounted_example : IsCounted 10 100 paused.shared
Reach-IsCounted_example = Reach-IsCounted paused-Reach

Reach-IsRoused_example : IsRoused paused.shared paused.player paused.stopper
Reach-IsRoused_example = Reach-IsRoused paused-Reach

Reach-IsAtMark_example : IsAtMark paused.shared paused.player paused.stopper paused.log
Reach-IsAtMark_example = Reach-IsAtMark paused-Reach

ends_le_begins_example : ends paused.log ≤ begins paused.log
ends_le_begins_example = ends_le_begins paused-Reach

paused-mark_reported : paused.shared.pause_state ≡ mark_reported
unfolding player_step stopper_step caller_step is_spd_mark play handle wake_up send_track send_file
    end_audio playback_queue_pop halt take_request perform module_speak_queue_before_synth
    module_speak_queue_before_play module_speak_queue_reset playback_queue_push
    module_speak_queue_add_end module_speak_queue_add_audio module_speak_queue_add_mark
    module_speak_queue_add_sound_icon module_speak_queue_flush module_speak_queue_stop
    module_speak_queue_pause module_speak_queue_terminate module_speak_queue_free
    clear_playback_queue paused
paused-mark_reported = refl

stop_ends_example :
    IsReset paused.shared.pause_state
      (player_steps no_files 5 (stopper_steps 2 paused)).log
      (stopper_steps 7 (player_steps no_files 5 (stopper_steps 2 paused)))
unfolding player_step stopper_step caller_step is_spd_mark play handle wake_up send_track send_file
    end_audio playback_queue_pop halt take_request perform module_speak_queue_before_synth
    module_speak_queue_before_play module_speak_queue_reset playback_queue_push
    module_speak_queue_add_end module_speak_queue_add_audio module_speak_queue_add_mark
    module_speak_queue_add_sound_icon module_speak_queue_flush module_speak_queue_stop
    module_speak_queue_pause module_speak_queue_terminate module_speak_queue_free
    clear_playback_queue paused
stop_ends_example =
    stop_ends no_files 10 100 true 5 paused paused-Reach refl refl refl refl (omega arith)

-- With no audio output, a stop in the middle of the message.
stopped : System
stopped = run (begun ++ caller call_stop ∷ stopper ∷ stopper ∷ []) (started false 100)

stopped-IsStuck : IsStuck stopped.shared stopped.player stopped.stopper
unfolding player_step stopper_step caller_step is_spd_mark play handle wake_up send_track send_file
    end_audio playback_queue_pop halt take_request perform module_speak_queue_before_synth
    module_speak_queue_before_play module_speak_queue_reset playback_queue_push
    module_speak_queue_add_end module_speak_queue_add_audio module_speak_queue_add_mark
    module_speak_queue_add_sound_icon module_speak_queue_flush module_speak_queue_stop
    module_speak_queue_pause module_speak_queue_terminate module_speak_queue_free
    clear_playback_queue stopped
stopped-IsStuck = record {
  stop = refl;
  close = refl;
  ready = refl;
  flag = refl;
  awake = refl;
  stopper = refl;
}

stopped-open : (stopper_step (player_step no_files stopped)).shared.close_requested ≡ false
unfolding player_step stopper_step caller_step is_spd_mark play handle wake_up send_track send_file
    end_audio playback_queue_pop halt take_request perform module_speak_queue_before_synth
    module_speak_queue_before_play module_speak_queue_reset playback_queue_push
    module_speak_queue_add_end module_speak_queue_add_audio module_speak_queue_add_mark
    module_speak_queue_add_sound_icon module_speak_queue_flush module_speak_queue_stop
    module_speak_queue_pause module_speak_queue_terminate module_speak_queue_free
    clear_playback_queue stopped
stopped-open = refl

further : Follows no_files 10 stopped (stopper_step (player_step no_files stopped))
unfolding player_step stopper_step caller_step is_spd_mark play handle wake_up send_track send_file
    end_audio playback_queue_pop halt take_request perform module_speak_queue_before_synth
    module_speak_queue_before_play module_speak_queue_reset playback_queue_push
    module_speak_queue_add_end module_speak_queue_add_audio module_speak_queue_add_mark
    module_speak_queue_add_sound_icon module_speak_queue_flush module_speak_queue_stop
    module_speak_queue_pause module_speak_queue_terminate module_speak_queue_free
    clear_playback_queue stopped
further = next (next here plays refl) stops refl

stop_never_ends_example :
    IsStuck
      (stopper_step (player_step no_files stopped)).shared
      (stopper_step (player_step no_files stopped)).player
      (stopper_step (player_step no_files stopped)).stopper
stop_never_ends_example = stop_never_ends stopped-IsStuck further

at_begin-IsPlaying : IsPlaying (mark spd_mark ∷ chunk two_frames audio_le ∷ []) (at_begin true)
unfolding player_step stopper_step caller_step is_spd_mark play handle wake_up send_track send_file
    end_audio playback_queue_pop halt take_request perform module_speak_queue_before_synth
    module_speak_queue_before_play module_speak_queue_reset playback_queue_push
    module_speak_queue_add_end module_speak_queue_add_audio module_speak_queue_add_mark
    module_speak_queue_add_sound_icon module_speak_queue_flush module_speak_queue_stop
    module_speak_queue_pause module_speak_queue_terminate module_speak_queue_free
    clear_playback_queue
at_begin-IsPlaying = record {
  player = refl;
  phase = refl;
  stop = refl;
  pause_state = refl;
  queue = refl;
}

plays_in_order_example :
    IsFinished (mark spd_mark ∷ chunk two_frames audio_le ∷ []) (at_begin true) (
      player_steps no_files
        (steps_of (mark spd_mark ∷ chunk two_frames audio_le ∷ []))
        (at_begin true))
plays_in_order_example =
    plays_in_order no_files (mark spd_mark ∷ chunk two_frames audio_le ∷ []) (at_begin true)
      at_begin-IsPlaying

-- A stop that comes when the playback thread has taken the end out of the queue: both the end and the
-- stop are reported.
abbrev late_stop : List Act
late_stop =
    begun
    ++ player
      ∷ player
      ∷ player
      ∷ player
      ∷ player
      ∷ player
      ∷ player
      ∷ caller call_stop
      ∷ player
      ∷ player
      ∷ stopper
      ∷ stopper
      ∷ player
      ∷ player
      ∷ player
      ∷ stopper
      ∷ stopper
      ∷ stopper
      ∷ stopper
      ∷ stopper
      ∷ stopper
      ∷ []

end_and_stop :
    (run late_stop (started true 100)).log
    ≡ report_stop
      ∷ cancel_synth
      ∷ audio_stop
      ∷ report_end
      ∷ audio_end
      ∷ audio_feed two_frames audio_le
      ∷ audio_begin two_frames audio_le
      ∷ report_mark spd_mark
      ∷ report_begin
      ∷ []
unfolding player_step stopper_step caller_step is_spd_mark play handle wake_up send_track send_file
    end_audio playback_queue_pop halt take_request perform module_speak_queue_before_synth
    module_speak_queue_before_play module_speak_queue_reset playback_queue_push
    module_speak_queue_add_end module_speak_queue_add_audio module_speak_queue_add_mark
    module_speak_queue_add_sound_icon module_speak_queue_flush module_speak_queue_stop
    module_speak_queue_pause module_speak_queue_terminate module_speak_queue_free
    clear_playback_queue
end_and_stop = refl
