-- ===== src/Playback/Account.antt =====
-- src/common/speak_queue.c: playback_queue_size against the entries in the list, for all threads.
use speechd.Base.{ℕ, ◌+◌, ◌≤◌, ◌≡◌, Option, List, [], ◌∷◌, ◌++◌, arith, refl, Bool}
use speechd.Playback.{
  Entry, audio, index_mark, sound_icon, begin_flag, end_flag, Shared, frames_of,
  module_speak_queue_reset, playback_queue_push, playback_queue_pop, clear_playback_queue,
}
use speechd.Playback.Calls.{
  copied, module_speak_queue_before_synth, module_speak_queue_before_play,
  module_speak_queue_add_end, module_speak_queue_add_audio, module_speak_queue_add_mark,
  module_speak_queue_add_sound_icon, module_speak_queue_flush, module_speak_queue_stop,
  module_speak_queue_pause, module_speak_queue_terminate, module_speak_queue_free, Call,
  call_add_audio, call_add_mark, call_add_sound_icon, perform,
}
use speechd.Playback.Player.{
  PlayerAt, SoundFile, send_track, send_file, end_audio, wake_up, handle, play,
}
use speechd.Playback.Stopper.{StopperAt, take_request, halt}
use speechd.Playback.Threads.{
  System, IsSmall, Step, plays, stops, calls, Reach, start, later, player_step, stopper_step,
  caller_step,
}

-- The audio frames of the entries that wait.
abbrev pub total : List Entry → ℕ
total [] = 0
total (e ∷ es) = frames_of e + total es

total-append : (es : List Entry) (e : Entry) → total (es ++ e ∷ []) ≡ total es + frames_of e
total-append [] e = omega arith
total-append (d ∷ es) e = omega (arith, total-append es e)

-- The size is that of the entries, and no more than one chunk above the limit.
pub record IsCounted (chunk maxsize : ℕ) (m : Shared) : Type 0 where
  pub limit : m.maxsize ≡ maxsize
  pub size : m.playback_queue_size ≡ total m.playback_queue
  pub bound : m.playback_queue_size ≤ maxsize + chunk

module _ {chunk maxsize : ℕ} where
  perform-IsCounted :
      (c : Call) (m : Shared)
      → IsSmall chunk c
      → IsCounted chunk maxsize m
      → IsCounted chunk maxsize (perform c m)
  unfolding perform module_speak_queue_before_synth module_speak_queue_before_play
      module_speak_queue_reset playback_queue_push module_speak_queue_add_end
      module_speak_queue_add_audio module_speak_queue_add_mark module_speak_queue_add_sound_icon
      module_speak_queue_flush module_speak_queue_stop module_speak_queue_pause
      module_speak_queue_terminate module_speak_queue_free clear_playback_queue
  perform-IsCounted (call_add_audio t f) m h i =
      ground (arith, total-append m.playback_queue (audio (copied t) f), i.limit, i.size, i.bound)
  perform-IsCounted (call_add_mark mark) m h i =
      ground (arith, total-append m.playback_queue (index_mark mark), i.limit, i.size, i.bound)
  perform-IsCounted (call_add_sound_icon name) m h i =
      ground (arith, total-append m.playback_queue (sound_icon name), i.limit, i.size, i.bound)
  perform-IsCounted c m h i = ground (
    arith,
    total-append m.playback_queue begin_flag,
    total-append m.playback_queue end_flag,
    i.limit,
    i.size,
    i.bound,
  )

  play-IsCounted :
      (sf_open : List ℕ → Option SoundFile) (p : PlayerAt) (m : Shared)
      → IsCounted chunk maxsize m
      → IsCounted chunk maxsize (play sf_open p m).shared
  unfolding play handle wake_up send_track send_file end_audio playback_queue_pop
  play-IsCounted sf_open p m i = ground (arith, i.limit, i.size, i.bound)

  halt-IsCounted :
      (p : StopperAt) (m : Shared)
      → IsCounted chunk maxsize m
      → IsCounted chunk maxsize (halt p m).shared
  unfolding halt take_request clear_playback_queue module_speak_queue_reset
  halt-IsCounted p m i = ground (arith, i.limit, i.size, i.bound)

  Step-IsCounted :
      {sf_open : List ℕ → Option SoundFile} {s t : System}
      → Step sf_open chunk s t
      → IsCounted chunk maxsize s.shared
      → IsCounted chunk maxsize t.shared
  unfolding player_step stopper_step caller_step
  Step-IsCounted {sf_open} {s} plays i = play-IsCounted sf_open s.player s.shared i
  Step-IsCounted {s} stops i = halt-IsCounted s.stopper s.shared i
  Step-IsCounted {s} (calls c small) i = perform-IsCounted c s.shared small i

-- In every reachable state, playback_queue_size is the number of audio frames of the entries that
-- wait, and it is at most the limit given to module_speak_queue_init and the frames of one chunk, if no
-- call of module_speak_queue_add_audio brings more frames than that.
pub Reach-IsCounted :
    {sf_open : List ℕ → Option SoundFile} {chunk maxsize : ℕ} {has_audio : Bool} {s : System}
    → Reach sf_open chunk has_audio maxsize s
    → IsCounted chunk maxsize s.shared
Reach-IsCounted start = record { limit = refl; size = refl; bound = omega arith }
Reach-IsCounted (later r st) = Step-IsCounted st (Reach-IsCounted r)
