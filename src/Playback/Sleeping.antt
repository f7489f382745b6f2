-- ===== src/Playback/Sleeping.antt =====
-- src/common/speak_queue.c: what the two flags of sleeping say of the threads, and what follows from
-- them for a stop.
use speechd.Base.{ℕ, ◌≡◌, Bool, true, false, Option, List, arith, refl}
use speechd.Playback.{
  Shared, module_speak_queue_reset, playback_queue_push, playback_queue_pop, clear_playback_queue,
}
use speechd.Playback.Calls.{
  module_speak_queue_before_synth, module_speak_queue_before_play, module_speak_queue_add_end,
  module_speak_queue_add_audio, module_speak_queue_add_mark, module_speak_queue_add_sound_icon,
  module_speak_queue_flush, module_speak_queue_stop, module_speak_queue_pause,
  module_speak_queue_terminate, module_speak_queue_free, Call, perform,
}
use speechd.Playback.Player.{
  PlayerAt, asleep, popping, head, leaving, returned, SoundFile, send_track, send_file, end_audio,
  wake_up, handle, play,
}
use speechd.Playback.Stopper.{
  StopperAt, waiting, cancelling, clearing, resetting, take_request, halt,
}
use speechd.Playback.Threads.{System, Reach, Reach-keeps, player_step, stopper_step, caller_step}

abbrev pub is_waiting : StopperAt → Bool
is_waiting waiting = true
is_waiting _ = false

abbrev pub is_asleep : PlayerAt → Bool
is_asleep asleep = true
is_asleep returned = true
is_asleep _ = false

-- The thread has no entry in its hands.
abbrev pub is_free : PlayerAt → Bool
is_free head = true
is_free asleep = true
is_free popping = true
is_free leaving = true
is_free returned = true
is_free _ = false

-- From the end of the playback up to the reset of the variables.
abbrev pub is_emptying : StopperAt → Bool
is_emptying cancelling = true
is_emptying clearing = true
is_emptying resetting = true
is_emptying _ = false

pub record IsRoused (m : Shared) (p : PlayerAt) (q : StopperAt) : Type 0 where
  pub waits : m.stop_or_pause_sleeping ≡ is_waiting q
  pub sleeps : m.play_sleeping ≡ is_asleep p
  pub silent :
      is_emptying q ≡ true → m.stop_requested ≡ true → m.close_requested ≡ false → is_free p ≡ true

perform-IsRoused :
    (c : Call) (m : Shared) {p : PlayerAt} {q : StopperAt}
    → IsRoused m p q
    → IsRoused (perform c m) p q
unfolding perform module_speak_queue_before_synth module_speak_queue_before_play
    module_speak_queue_reset playback_queue_push module_speak_queue_add_end
    module_speak_queue_add_audio module_speak_queue_add_mark module_speak_queue_add_sound_icon
    module_speak_queue_flush module_speak_queue_stop module_speak_queue_pause
    module_speak_queue_terminate module_speak_queue_free clear_playback_queue
perform-IsRoused c m {p} {q} i = record {
  waits = ground (arith, i.waits);
  sleeps = ground (arith, i.sleeps);
  silent = λ e f g. ground (arith, i.waits, i.silent);
}

play-IsRoused :
    (sf_open : List ℕ → Option SoundFile) (p : PlayerAt) (m : Shared) {q : StopperAt}
    → IsRoused m p q
    → IsRoused (play sf_open p m).shared (play sf_open p m).place q
unfolding play handle wake_up send_track send_file end_audio playback_queue_pop
play-IsRoused sf_open p m {q} i = record {
  waits = ground (arith, i.waits);
  sleeps = ground (arith, i.sleeps);
  silent = λ e f g. ground (arith, i.waits, i.silent);
}

halt-IsRoused :
    (q : StopperAt) (m : Shared) {p : PlayerAt}
    → IsRoused m p q
    → IsRoused (halt q m).shared p (halt q m).place
unfolding halt take_request clear_playback_queue module_speak_queue_reset
halt-IsRoused q m {p} i = record {
  waits = ground (arith, i.waits);
  sleeps = ground (arith, i.sleeps);
  silent = λ e f g. ground (arith, i.sleeps, i.silent);
}

-- In every reachable state the two flags tell whether the threads sleep; and while a stop empties the
-- queue, the playback thread has no entry in its hands, if the request still stands and the module
-- is not being closed.
pub Reach-IsRoused :
    {sf_open : List ℕ → Option SoundFile} {chunk maxsize : ℕ} {has_audio : Bool} {s : System}
    → Reach sf_open chunk has_audio maxsize s
    → IsRoused s.shared s.player s.stopper
unfolding player_step stopper_step caller_step
Reach-IsRoused {sf_open} =
    Reach-keeps (record { waits = refl; sleeps = refl; silent = λ e f g. refl })
      (λ s. play-IsRoused sf_open s.player s.shared) (λ s. halt-IsRoused s.stopper s.shared)
      (λ c s small. perform-IsRoused c s.shared)
