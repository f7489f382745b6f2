-- ===== src/Playback/Player.antt =====
-- src/common/speak_queue.c: the playback thread, one critical section, or one piece of code between
-- two of them, at a time.
use speechd.Base.{
  ℕ, ◌/◌, Bool, true, false, ◌&&◌, ◌||◌, Option, none, some, List, [], ◌∷◌, ◌++◌, if◌then◌else◌,
  ltb, ◌==◌,
}
use speechd.Base.Text.{codes, has_prefix}
use speechd.Playback.{
  idle, before_play, speaking, pause_off, pause_requested, mark_reported, AudioFormat, audio_le,
  Track, Entry, Output, audio_begin, audio_feed, audio_end, report_mark, report_begin, report_end,
  Shared, is_ready, is_speaking, no_data, stop_seen, popped, playback_queue_pop,
}

-- Where the thread stands in `speak_queue_play`.
pub data PlayerAt : Type 0 where
  head : PlayerAt  -- the test of the outer loop
  asleep : PlayerAt  -- in the wait for BEFORE_PLAY
  popping : PlayerAt  -- before or in playback_queue_pop
  handling : Entry → PlayerAt  -- before the switch
  mark_told : List ℕ → PlayerAt  -- behind module_report_index_mark
  began : PlayerAt  -- before module_report_event_begin
  at_end : PlayerAt  -- before the critical section of END
  finishing : PlayerAt  -- before module_report_event_end
  leaving : PlayerAt  -- behind the inner loop
  returned : PlayerAt

-- What sf_open and sf_read_short of libsndfile say of a file.
pub record SoundFile : Type 0 where
  pub channels : ℕ
  pub frames : ℕ
  pub samplerate : ℕ
  pub readcount : ℕ
  pub samples : List ℕ

-- What a step does: the variables, the place, and the events, in their order.
pub record Done (A : Type 0) : Type 0 where
  pub shared : Shared
  pub place : A
  pub events : List Output

abbrev pub done : {A : Type 0} → Shared → A → List Output → Done A
done m p es = record { shared = m; place = p; events = es }

-- `speak_queue_send_track_to_audio`
unfoldable pub send_track : Track → AudioFormat → Shared → Shared × List Output
send_track t f m =
    if m.configured
    then (m, audio_feed t f ∷ [])
    else (record m { configured = true }, audio_begin t f ∷ audio_feed t f ∷ [])

-- `speak_queue_send_file_to_audio`, on what sf_open returns
unfoldable pub send_file : Option SoundFile → Shared → Shared × List Output
send_file none m = (m, [])
send_file (some sf) m =
    if ltb sf.channels 1 || ltb 2 sf.channels
    then (m, [])
    else if ltb (0x7fffffff) sf.frames || sf.frames == 0
    then (m, [])
    else if ltb 0 sf.readcount
    then send_track
        (record {
          bits = 16;
          num_channels = sf.channels;
          sample_rate = sf.samplerate;
          num_samples = sf.readcount / sf.channels;
          samples = sf.samples;
        })
        audio_le m
    else (m, [])

-- `if (speak_queue_configured)` with spd_audio_end
unfoldable pub end_audio : Shared → Shared × List Output
end_audio m = if m.configured then (record m { configured = false }, audio_end ∷ []) else (m, [])

-- From the wait for BEFORE_PLAY up to the unlock, or to the next wait.
unfoldable pub wake_up : Shared → Done PlayerAt
wake_up m =
    if m.close_requested
    then done (record m { play_sleeping = true }) returned []
    else if is_ready m.phase
    then done (record m { play_sleeping = false }) popping []
    else done m asleep []

-- `g_str_has_prefix(markId, "__spd_")`
unfoldable pub is_spd_mark : List ℕ → Bool
is_spd_mark mark = has_prefix (codes "__spd_") mark

-- The test by which a pause takes place at a mark.
abbrev pub is_pause_mark : List ℕ → Shared → Bool
is_pause_mark mark m = elim m.pause_state [
  | pause_requested ↦ is_speaking m.phase && m.stop_or_pause_sleeping && is_spd_mark mark
  | _ ↦ false
]

unfoldable pub handle : (List ℕ → Option SoundFile) → Entry → Shared → Done PlayerAt
handle sf_open (Entry.audio t f) m = let (m', es) = send_track t f m in done m' popping es
handle sf_open (Entry.index_mark mark) m = done m (mark_told mark) (report_mark mark ∷ [])
handle sf_open (Entry.sound_icon name) m =
    let (m', es) = end_audio m in
    let (m'', fs) = send_file (sf_open name) m' in done m'' popping (es ++ fs)
handle sf_open Entry.begin_flag m = elim m.phase [
  | before_play ↦ done (record m { phase = speaking }) began []
  | _ ↦ done m popping []
]
handle sf_open Entry.end_flag m = let (m', es) = end_audio m in done m' at_end es
handle sf_open _ m = done m popping []

unfoldable pub play : (List ℕ → Option SoundFile) → PlayerAt → Shared → Done PlayerAt
play sf_open head m =
    if m.close_requested
    then done (record m { play_sleeping = true }) returned []
    else wake_up (record m { play_sleeping = true })
play sf_open asleep m = wake_up m
play sf_open popping m = elim (playback_queue_pop m) [
  | no_data ↦ done m popping []
  | stop_seen ↦ done m leaving []
  | popped e m' ↦ done m' (handling e) []
]
play sf_open (handling e) m = handle sf_open e m
play sf_open (mark_told mark) m =
    if is_pause_mark mark m
    then done (record m { stop_requested = true; pause_state = mark_reported }) leaving []
    else done m popping []
play sf_open began m = done m popping (report_begin ∷ [])
play sf_open at_end m =
    if is_speaking m.phase
    then (if m.stop_requested
        then done m finishing []
        else done (record m { phase = idle; pause_state = pause_off }) finishing [])
    else done m popping []
play sf_open finishing m = done m leaving (report_end ∷ [])
play sf_open leaving m = let (m', es) = end_audio m in done m' head es
play sf_open returned m = done m returned []
