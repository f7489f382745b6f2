-- ===== src/Protocol/Audio.antt =====
-- src/modules/module_process.c: how module_tts_output_send_server sends audio; src/server/output.c:
-- how output_module_is_speaking receives it.
pub mod RoundTrip
pub mod Stream
use Prim.Native.Nat.{bit_xor}
use speechd.Base.{
  ℕ, zero, suc, ◌+◌, ◌*◌, ◌/◌, ◌==◌, ltb, Bool, true, false, not, ◌||◌, Option, none, some, List,
  [], ◌∷◌, ◌++◌, length, drop, if◌then◌else◌,
}
use speechd.Base.Int.{ℤ, pos, negsuc}
use speechd.Base.Text.{codes, has_prefix}
use speechd.Parse.Param.{negate}
use speechd.Speaking.Reload.{strtol}
use speechd.Playback.{AudioFormat, audio_le, audio_be, Track}
use speechd.Protocol.{lf, print_int}

-- `track->num_channels * track->num_samples * track->bits / 8`
abbrev pub track_size : Track → ℕ
track_size t = t.num_channels * t.num_samples * t.bits / 8

abbrev pub format_number : AudioFormat → ℕ
format_number audio_le = 0
format_number audio_be = 1

-- `printf("705-...=%d\n", n)`
abbrev pub param_line : List ℕ → ℕ → List ℕ → List ℕ
param_line name n rest = name ++ (print_int (pos n) ++ (lf ∷ rest))

-- The loop that writes the samples: an escape or a line end is written as an escape and the byte with
-- its bit 5 inverted.
unfoldable pub escape_audio : List ℕ → List ℕ
escape_audio [] = []
escape_audio (c ∷ p) =
    let rest = escape_audio p in if c == 125 || c == lf then 125 ∷ bit_xor c 32 ∷ rest else c ∷ rest

-- `module_tts_output_send_server`, for a track that has as many bytes as its size says.
unfoldable pub audio_event : Track → AudioFormat → List ℕ
audio_event t f = param_line (codes "705-bits=") t.bits (
    param_line (codes "705-num_channels=") t.num_channels (
      param_line (codes "705-sample_rate=") t.sample_rate (
        param_line (codes "705-num_samples=") t.num_samples (
          param_line (codes "705-big_endian=") (format_number f)
            (codes "705-AUDIO" ++ (0 ∷ (escape_audio t.samples ++ (lf ∷ codes "705 AUDIO\n"))))))))

-- What the server reads of a track before its samples; all start as 0.
pub record Header : Type 0 where
  pub bits : ℤ
  pub num_channels : ℤ
  pub sample_rate : ℤ
  pub num_samples : ℤ
  pub format : ℤ

abbrev pub no_header : Header
no_header = record {
  bits = pos 0;
  num_channels = pos 0;
  sample_rate = pos 0;
  num_samples = pos 0;
  format = pos 0;
}

-- `atoi`
abbrev pub leading_int : List ℕ → ℤ
leading_int text = elim (strtol text) [ none ↦ pos 0 | some n ↦ n ]

-- The chain of tests on the name of a parameter.
unfoldable pub set_header : List ℕ → Header → Option Header
set_header p h =
    if has_prefix (codes "705-big_endian=") p
    then some (record h { format = leading_int (drop 15 p) })
    else if has_prefix (codes "705-bits=") p
    then some (record h { bits = leading_int (drop 9 p) })
    else if has_prefix (codes "705-num_channels=") p
    then some (record h { num_channels = leading_int (drop 17 p) })
    else if has_prefix (codes "705-sample_rate=") p
    then some (record h { sample_rate = leading_int (drop 16 p) })
    else if has_prefix (codes "705-num_samples=") p
    then some (record h { num_samples = leading_int (drop 16 p) })
    else none

-- `memchr(p, '\n', end - p)`: the bytes before the next line end, and those behind it.
unfoldable pub cut_line : List ℕ → Option (List ℕ × List ℕ)
cut_line [] = none
cut_line (c ∷ p) =
    let later = cut_line p in
    if c == lf
    then some ([], p)
    else elim later [ none ↦ none | some (line, rest) ↦ some (c ∷ line, rest) ]

-- The loop over the parameters, with a round for each line: the header, and what stands behind the name
-- AUDIO and its NUL.
unfoldable pub read_header : ℕ → Header → List ℕ → Option (Header × List ℕ)
read_header zero h p = none
read_header (suc fuel) h p = if not (has_prefix (codes "705-") p) then none else elim (cut_line p) [
  | none ↦ none
  | some (line, next) ↦
      if has_prefix (codes "705-AUDIO" ++ (0 ∷ [])) p
      then some (h, drop 10 p)
      else elim (set_header p h) [ none ↦ none | some k ↦ read_header fuel k next ]
]

abbrev pub put : ℕ → Option (List ℕ) → Option (List ℕ)
put c none = none
put c (some p) = some (c ∷ p)

-- The loop that fills `data`, of which `room` bytes are free; none if the content is bogus, also if
-- there are too few bytes.
unfoldable pub unescape_audio : ℕ → List ℕ → Option (List ℕ)
unescape_audio zero [] = some []
unescape_audio zero (c ∷ p) = none
unescape_audio (suc room) [] = none
unescape_audio (suc room) (c ∷ []) =
    let last = put c (unescape_audio room []) in if c == 125 then none else last
unescape_audio (suc room) (c ∷ d ∷ p) =
    let escaped = put (bit_xor d 32) (unescape_audio room p) in
    let plain = put c (unescape_audio room (d ∷ p)) in if c == 125 then escaped else plain

abbrev times : ℤ → ℤ → ℤ
times (pos a) (pos b) = pos (a * b)
times (pos a) (negsuc b) = negate (a * suc b)
times (negsuc a) (pos b) = negate (suc a * b)
times (negsuc a) (negsuc b) = pos (suc a * suc b)

-- An eighth of a number of bits; none for a number below 0, which is too large a size as a `size_t`.
abbrev eighth : ℤ → Option ℕ
eighth (pos n) = some (n / 8)
eighth (negsuc n) = if ltb n 7 then some 0 else none

abbrev header_size : Header → Option ℕ
header_size h = eighth (times (times h.num_channels h.num_samples) h.bits)

-- The end of the branch: bogus content, no memory for the samples (which is not tested), or a track for
-- the play-back queue.
pub data Received : Type 0 where
  bogus no_memory : Received
  got : Header → List ℕ → Received

abbrev pub received_of : Header → Option (List ℕ) → Received
received_of h none = bogus
received_of h (some samples) = got h samples

abbrev pub read_samples : Header → Option (List ℕ × List ℕ) → Received
read_samples h none = bogus
read_samples h (some (line, rest)) = elim (header_size h) [
  | none ↦ no_memory
  | some size ↦ received_of h (unescape_audio size line)
]

abbrev pub read_track : Option (Header × List ℕ) → Received
read_track none = bogus
read_track (some (h, p)) = read_samples h (cut_line p)

-- The branch of `output_module_is_speaking` for audio, on the whole message.
unfoldable pub read_audio : List ℕ → Received
read_audio p = read_track (read_header (suc (length p)) no_header p)
