-- ===== src/Tests/Protocol.antt =====
-- src/server/output.c and src/modules/module_process.c on short texts.
use speechd.Base.{ℕ, ◌≡◌, refl, List, [], ◌++◌}
use speechd.Base.Text.{codes}
use speechd.Types.{msg_key}
use speechd.Server.Modules.{escape_lines, escape_line_dots}
use speechd.Base.{none, ◌∷◌}
use speechd.IndexMarks.{digits}
use speechd.Playback.{Track, audio_le}
use speechd.Protocol.{lines_from, lines_of}
use speechd.Protocol.Audio.{escape_audio, audio_event, unescape_audio}
use speechd.Protocol.Speak.{
  cmd_speak, receive_text, checked_text, speak_data, err_more_than_one_line,
}

abbrev dotted : List ℕ
dotted = codes ".a\n."

dotted_sent : speak_data dotted ≡ codes "..a\n..\n.\n"
unfolding speak_data escape_line_dots escape_lines
dotted_sent = refl

-- A key of two lines is refused.
two_lines : cmd_speak msg_key (lines_of (codes "a\nb\n.\n")) ≡ (err_more_than_one_line, [])
unfolding cmd_speak receive_text checked_text lines_from
two_lines = refl

-- Two samples of 16 bits, with an escape and a line end among the bytes.
abbrev short_track : Track
short_track = record {
  bits = 16;
  num_channels = 1;
  sample_rate = 22050;
  num_samples = 2;
  samples = 125 ∷ 10 ∷ 7 ∷ 0 ∷ [];
}

short_sent :
    audio_event short_track audio_le
    ≡ codes
        "705-bits=16\n705-num_channels=1\n705-sample_rate=22050\n705-num_samples=2\n705-big_endian=0\n705-AUDIO"
      ++ (0 ∷ 125 ∷ 93 ∷ 125 ∷ 42 ∷ 7 ∷ 0 ∷ codes "\n705 AUDIO\n")
unfolding audio_event escape_audio digits
short_sent = refl

-- An escape with nothing behind it.
bogus_escape : unescape_audio 1 (125 ∷ []) ≡ none
unfolding unescape_audio
bogus_escape = refl
