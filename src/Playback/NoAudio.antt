-- ===== src/Playback/NoAudio.antt =====
-- src/common/speak_queue.c: a stop when the module has no audio output.
use speechd.Base.{ℕ, ◌≡◌, true, false, Option, List, arith}
use speechd.Playback.{
  Shared, is_ready, module_speak_queue_reset, playback_queue_push, playback_queue_pop,
  clear_playback_queue,
}
use speechd.Playback.Calls.{
  module_speak_queue_before_synth, module_speak_queue_before_play, module_speak_queue_add_end,
  module_speak_queue_add_audio, module_speak_queue_add_mark, module_speak_queue_add_sound_icon,
  module_speak_queue_flush, module_speak_queue_stop, module_speak_queue_pause,
  module_speak_queue_terminate, module_speak_queue_free, Call, perform,
}
use speechd.Playback.Player.{
  PlayerAt, SoundFile, send_track, send_file, end_audio, wake_up, handle, play,
}
use speechd.Playback.Stopper.{StopperAt, lulling, take_request, halt}
use speechd.Playback.Threads.{
  System, Step, plays, stops, calls, player_step, stopper_step, caller_step,
}
use speechd.Playback.Sleeping.{is_asleep}

-- Any further steps, none of which closes the module.
pub data Follows (sf_open : List ℕ → Option SoundFile) (chunk : ℕ) (s : System)
    : System → Type 0 where
  here : Follows sf_open chunk s s
  next :
      {t u : System}
      → Follows sf_open chunk s t
      → Step sf_open chunk t u
      → u.shared.close_requested ≡ false
      → Follows sf_open chunk s u

-- The thread that stops waits for the playback thread, which is under way in a state of BEFORE_PLAY or
-- SPEAKING and does not sleep.
pub record IsStuck (m : Shared) (p : PlayerAt) (q : StopperAt) : Type 0 where
  pub stop : m.stop_requested ≡ true
  pub close : m.close_requested ≡ false
  pub ready : is_ready m.phase ≡ true
  pub flag : m.play_sleeping ≡ false
  pub awake : is_asleep p ≡ false
  pub stopper : q ≡ lulling

perform-IsStuck :
    (c : Call) (m : Shared) {p : PlayerAt} {q : StopperAt}
    → IsStuck m p q
    → (perform c m).close_requested ≡ false
    → IsStuck (perform c m) p q
unfolding perform module_speak_queue_before_synth module_speak_queue_before_play
    module_speak_queue_reset playback_queue_push module_speak_queue_add_end
    module_speak_queue_add_audio module_speak_queue_add_mark module_speak_queue_add_sound_icon
    module_speak_queue_flush module_speak_queue_stop module_speak_queue_pause
    module_speak_queue_terminate module_speak_queue_free clear_playback_queue
perform-IsStuck c m i h = record {
  stop = ground (arith, i.stop, i.close, i.ready, h);
  close = h;
  ready = ground (arith, i.stop, i.close, i.ready, h);
  flag = ground (arith, i.stop, i.flag, i.ready, h);
  awake = i.awake;
  stopper = i.stopper;
}

play-IsStuck :
    (sf_open : List ℕ → Option SoundFile) (p : PlayerAt) (m : Shared) {q : StopperAt}
    → IsStuck m p q
    → IsStuck (play sf_open p m).shared (play sf_open p m).place q
unfolding play handle wake_up send_track send_file end_audio playback_queue_pop
play-IsStuck sf_open p m i = record {
  stop = ground (arith, i.stop, i.close, i.ready, i.awake);
  close = ground (arith, i.stop, i.close, i.ready, i.awake);
  ready = ground (arith, i.stop, i.close, i.ready, i.awake);
  flag = ground (arith, i.stop, i.close, i.ready, i.awake, i.flag);
  awake = ground (arith, i.stop, i.close, i.ready, i.awake);
  stopper = i.stopper;
}

halt-IsStuck :
    (q : StopperAt) (m : Shared) {p : PlayerAt}
    → IsStuck m p q
    → IsStuck (halt q m).shared p (halt q m).place
unfolding halt take_request clear_playback_queue module_speak_queue_reset
halt-IsStuck q m i = record {
  stop = ground (arith, i.stop, i.stopper, i.flag);
  close = ground (arith, i.close, i.stopper, i.flag);
  ready = ground (arith, i.ready, i.stopper, i.flag);
  flag = ground (arith, i.flag, i.stopper);
  awake = i.awake;
  stopper = ground (arith, i.stopper, i.flag);
}

Step-IsStuck :
    {sf_open : List ℕ → Option SoundFile} {chunk : ℕ} {s t : System}
    → Step sf_open chunk s t
    → t.shared.close_requested ≡ false
    → IsStuck s.shared s.player s.stopper
    → IsStuck t.shared t.player t.stopper
unfolding player_step stopper_step caller_step
Step-IsStuck {sf_open} {s} plays h i = play-IsStuck sf_open s.player s.shared i
Step-IsStuck {s} stops h i = halt-IsStuck s.stopper s.shared i
Step-IsStuck {s} (calls c small) h i = perform-IsStuck c s.shared i h

-- With no audio output, a stop that comes while the playback thread is under way never ends: whatever the
-- threads and the callers do, short of closing the module, the playback thread never sleeps and the
-- other thread never leaves its wait for that.
pub stop_never_ends :
    {sf_open : List ℕ → Option SoundFile} {chunk : ℕ} {s t : System}
    → IsStuck s.shared s.player s.stopper
    → Follows sf_open chunk s t
    → IsStuck t.shared t.player t.stopper
stop_never_ends i here = i
stop_never_ends i (next f st h) = Step-IsStuck st h (stop_never_ends i f)
