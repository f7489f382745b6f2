-- ===== src/Protocol/Audio/RoundTrip.antt =====
-- The audio that a module sends is what the server reads.
use mathlib.Core.Path.{subst}
use speechd.Base.{
  ℕ, suc, ◌==◌, ◌≡◌, refl, sym, ap, ◌∙◌, true, false, inl, inr, Bool-cases, ==_iff, some, List, [],
  ◌∷◌, ◌++◌, append_assoc, length, arith,
}
use speechd.Base.Int.{pos}
use speechd.Base.Text.{codes, has_prefix}
use speechd.Playback.{AudioFormat, Track}
use speechd.Protocol.{lf, print_int}
use speechd.Protocol.Numbers.{no_lf, no_lf-print_int, strtol-print_int}
use speechd.Protocol.Audio.{
  track_size, format_number, param_line, escape_audio, audio_event, Header, no_header, leading_int,
  set_header, cut_line, read_header, unescape_audio, put, got, received_of, read_samples,
  read_track, read_audio,
}

cut_line-no_lf :
    (line rest : List ℕ) → no_lf line ≡ true → cut_line (line ++ lf ∷ rest) ≡ some (line, rest)
unfolding cut_line
cut_line-no_lf [] rest h = refl
cut_line-no_lf (c ∷ line) rest h = ground (arith, h, cut_line-no_lf line rest)

-- No line end is left in the samples, and they are read back.
pub no_lf-escape_audio : (p : List ℕ) → no_lf (escape_audio p) ≡ true
unfolding escape_audio
no_lf-escape_audio [] = refl
no_lf-escape_audio (c ∷ p) = elim (Bool-cases (c == 125)) [
  | inl e ↦
      subst (λ x. no_lf (escape_audio (x ∷ p)) ≡ true) (sym ((==_iff c 125).0 e))
        (no_lf-escape_audio p)
  | inr e ↦ elim (Bool-cases (c == lf)) [
    | inl f ↦
        subst (λ x. no_lf (escape_audio (x ∷ p)) ≡ true) (sym ((==_iff c lf).0 f))
          (no_lf-escape_audio p)
    | inr f ↦ ground (arith, e, f, no_lf-escape_audio p)
  ]
]

unescape_plain :
    (room c : ℕ) (p : List ℕ)
    → (c == 125) ≡ false
    → unescape_audio (suc room) (c ∷ p) ≡ put c (unescape_audio room p)
unfolding unescape_audio
unescape_plain room c [] e = rw e
unescape_plain room c (d ∷ p) e = rw e

unescape_audio-escape_audio : (p : List ℕ) → unescape_audio (length p) (escape_audio p) ≡ some p
unfolding escape_audio unescape_audio
unescape_audio-escape_audio [] = refl
unescape_audio-escape_audio (c ∷ p) = elim (Bool-cases (c == 125)) [
  | inl e ↦
      subst (λ x. unescape_audio (suc (length p)) (escape_audio (x ∷ p)) ≡ some (x ∷ p))
        (sym ((==_iff c 125).0 e)) (ap (put 125) (unescape_audio-escape_audio p))
  | inr e ↦ elim (Bool-cases (c == lf)) [
    | inl f ↦
        subst (λ x. unescape_audio (suc (length p)) (escape_audio (x ∷ p)) ≡ some (x ∷ p))
          (sym ((==_iff c lf).0 f)) (ap (put lf) (unescape_audio-escape_audio p))
    | inr f ↦
        ap (unescape_audio (suc (length p))) (copied c p e f)
        ∙ unescape_plain (length p) c (escape_audio p) e
        ∙ ap (put c) (unescape_audio-escape_audio p)
  ]
]
  where
    copied :
        (c : ℕ) (p : List ℕ)
        → (c == 125) ≡ false
        → (c == lf) ≡ false
        → escape_audio (c ∷ p) ≡ c ∷ escape_audio p
    copied c p e f = rw (e, f)

leading_int-print_int :
    (n : ℕ) (rest : List ℕ) → leading_int (print_int (pos n) ++ lf ∷ rest) ≡ pos n
leading_int-print_int n rest = rw (strtol-print_int (pos n) lf rest refl, leading_int) refl

pub no_lf-append : (a b : List ℕ) → no_lf a ≡ true → no_lf b ≡ true → no_lf (a ++ b) ≡ true
no_lf-append [] b h k = k
no_lf-append (c ∷ a) b h k = ground (arith, h, no_lf-append a b)

-- One line of a parameter.
read_header-param_line :
    (fuel : ℕ) (h k : Header) (name : List ℕ) (n : ℕ) (rest : List ℕ)
    → no_lf name ≡ true
    → has_prefix (codes "705-") (param_line name n rest) ≡ true
    → has_prefix (codes "705-AUDIO" ++ (0 ∷ [])) (param_line name n rest) ≡ false
    → set_header (param_line name n rest) h ≡ some k
    → read_header (suc fuel) h (param_line name n rest) ≡ read_header fuel k rest
unfolding read_header
read_header-param_line fuel h k name n rest a b c d =
    let e : cut_line (param_line name n rest) ≡ some (name ++ print_int (pos n), rest) =
      ap cut_line (sym (append_assoc name (print_int (pos n)) (lf ∷ rest)))
      ∙ cut_line-no_lf (name ++ print_int (pos n)) rest
          (no_lf-append name (print_int (pos n)) a (no_lf-print_int (pos n))) in
    rw (b, e, read_header) (rw (c, d, read_header) refl)

-- The header of a track.
abbrev pub header_of : Track → AudioFormat → Header
header_of t f = record {
  bits = pos t.bits;
  num_channels = pos t.num_channels;
  sample_rate = pos t.sample_rate;
  num_samples = pos t.num_samples;
  format = pos (format_number f);
}

-- The event from its parameters on.
abbrev pub samples_part : Track → List ℕ
samples_part t = codes "705-AUDIO" ++ (0 ∷ (escape_audio t.samples ++ (lf ∷ codes "705 AUDIO\n")))

abbrev pub from_format : Track → AudioFormat → List ℕ
from_format t f = param_line (codes "705-big_endian=") (format_number f) (samples_part t)

abbrev pub from_samples : Track → AudioFormat → List ℕ
from_samples t f = param_line (codes "705-num_samples=") t.num_samples (from_format t f)

abbrev pub from_rate : Track → AudioFormat → List ℕ
from_rate t f = param_line (codes "705-sample_rate=") t.sample_rate (from_samples t f)

abbrev pub from_channels : Track → AudioFormat → List ℕ
from_channels t f = param_line (codes "705-num_channels=") t.num_channels (from_rate t f)

abbrev after_bits : Track → Header
after_bits t = record no_header { bits = pos t.bits }

abbrev after_channels : Track → Header
after_channels t = record (after_bits t) { num_channels = pos t.num_channels }

abbrev after_rate : Track → Header
after_rate t = record (after_channels t) { sample_rate = pos t.sample_rate }

abbrev after_samples : Track → Header
after_samples t = record (after_rate t) { num_samples = pos t.num_samples }

cut_line-samples_part :
    (t : Track)
    → cut_line (samples_part t)
      ≡ some (codes "705-AUDIO" ++ (0 ∷ escape_audio t.samples), codes "705 AUDIO\n")
cut_line-samples_part t =
    cut_line-no_lf (codes "705-AUDIO" ++ (0 ∷ escape_audio t.samples)) (codes "705 AUDIO\n")
      (no_lf-escape_audio t.samples)

read_header-samples_part :
    (fuel : ℕ) (h : Header) (t : Track)
    → read_header (suc fuel) h (samples_part t)
      ≡ some (h, escape_audio t.samples ++ (lf ∷ codes "705 AUDIO\n"))
unfolding read_header
read_header-samples_part fuel h t = rw (cut_line-samples_part t, read_header) refl

read_header-audio_event :
    (fuel : ℕ) (t : Track) (f : AudioFormat)
    → read_header (suc (suc (suc (suc (suc (suc fuel)))))) no_header (audio_event t f)
      ≡ some (header_of t f, escape_audio t.samples ++ (lf ∷ codes "705 AUDIO\n"))
unfolding audio_event set_header
read_header-audio_event fuel t f =
    read_header-param_line (suc (suc (suc (suc (suc fuel))))) no_header (after_bits t)
      (codes "705-bits=") t.bits (from_channels t f) refl refl refl
      (ap (λ n. some (record no_header { bits = n }))
        (leading_int-print_int t.bits (from_channels t f)))
    ∙ read_header-param_line (suc (suc (suc (suc fuel)))) (after_bits t) (after_channels t)
        (codes "705-num_channels=") t.num_channels (from_rate t f) refl refl refl
        (ap (λ n. some (record (after_bits t) { num_channels = n }))
          (leading_int-print_int t.num_channels (from_rate t f)))
    ∙ read_header-param_line (suc (suc (suc fuel))) (after_channels t) (after_rate t)
        (codes "705-sample_rate=") t.sample_rate (from_samples t f) refl refl refl
        (ap (λ n. some (record (after_channels t) { sample_rate = n }))
          (leading_int-print_int t.sample_rate (from_samples t f)))
    ∙ read_header-param_line (suc (suc fuel)) (after_rate t) (after_samples t)
        (codes "705-num_samples=") t.num_samples (from_format t f) refl refl refl
        (ap (λ n. some (record (after_rate t) { num_samples = n }))
          (leading_int-print_int t.num_samples (from_format t f)))
    ∙ read_header-param_line (suc fuel) (after_samples t) (header_of t f) (codes "705-big_endian=")
        (format_number f) (samples_part t) refl refl refl
        (ap (λ n. some (record (after_samples t) { format = n }))
          (leading_int-print_int (format_number f) (samples_part t)))
    ∙ read_header-samples_part fuel (header_of t f) t

-- Audio that a module sends, with as many bytes of samples as the numbers of its track say, is what the server
-- reads for its play-back queue: all parameters, the format and every byte, escapes and line ends among them.
pub read_audio-audio_event :
    (t : Track) (f : AudioFormat)
    → length t.samples ≡ track_size t
    → read_audio (audio_event t f) ≡ got (header_of t f) t.samples
unfolding read_audio audio_event
read_audio-audio_event t f h =
    ap read_track (read_header-audio_event _ t f)
    ∙ ap (read_samples (header_of t f)) (
        cut_line-no_lf (escape_audio t.samples) (codes "705 AUDIO\n")
          (no_lf-escape_audio t.samples))
    ∙ ap (received_of (header_of t f)) (
        ap (λ n. unescape_audio n (escape_audio t.samples)) (sym h)
        ∙ unescape_audio-escape_audio t.samples)
