-- ===== src/Parse/Dots.antt =====
-- src/server/parse.c (`deescape_dot`) and src/api/c/libspeechd.c (`escape_dot`): dots at the start of
-- a line are doubled on the wire. A text is the list of its bytes, without the NUL at its end.
pub mod RoundTrip
use speechd.Base.{ℕ, zero, suc, ◌-◌, ◌==◌, leb, Bool, true, false, ◌&&◌, List, [], ◌∷◌, length}

-- CR, LF and the full stop.
abbrev pub cr : ℕ
cr = 13

abbrev pub lf : ℕ
lf = 10

abbrev pub dot : ℕ
dot = 46

abbrev pub is_dotline : ℕ → ℕ → ℕ → Bool
is_dotline a b c = a == cr && (b == lf && c == dot)

-- The loop of `escape_dot`. Behind the end of the text stands the NUL, which is no full stop.
unfoldable pub escape_loop : List ℕ → List ℕ
escape_loop [] = []
escape_loop (a ∷ []) = a ∷ []
escape_loop (a ∷ b ∷ []) = a ∷ b ∷ []
escape_loop (a ∷ b ∷ c ∷ text) = elim (is_dotline a b c) [
  | true ↦ cr ∷ lf ∷ dot ∷ dot ∷ escape_loop text
  | false ↦ a ∷ escape_loop (b ∷ c ∷ text)
]

unfoldable pub escape_dot : List ℕ → List ℕ
unfolding escape_loop
escape_dot [] = []
escape_dot (a ∷ text) = elim (a == dot) [
  | true ↦ dot ∷ dot ∷ escape_loop text
  | false ↦ escape_loop (a ∷ text)
]

-- The loop of `deescape_dot`, over the buffer from `orig_text` on; the number is what is left to
-- `orig_end`. The tests look at up to three bytes behind that end.
unfoldable pub deescape_loop : List ℕ → ℕ → List ℕ
deescape_loop buf zero = []
deescape_loop [] (suc n) = []
deescape_loop (a ∷ []) (suc n) = a ∷ []
deescape_loop (a ∷ b ∷ []) (suc n) = a ∷ deescape_loop (b ∷ []) n
deescape_loop (a ∷ b ∷ c ∷ []) (suc n) = a ∷ deescape_loop (b ∷ c ∷ []) n
deescape_loop (a ∷ b ∷ c ∷ d ∷ buf) (suc n) = elim (is_dotline a b c && d == dot) [
  | true ↦ cr ∷ lf ∷ dot ∷ deescape_loop buf (n - 3)
  | false ↦ a ∷ deescape_loop (b ∷ c ∷ d ∷ buf) n
]

-- `deescape_dot`
unfoldable pub deescape_dot : List ℕ → ℕ → List ℕ
unfolding deescape_loop
deescape_dot [] n = []
deescape_dot (a ∷ []) n = deescape_loop (a ∷ []) n
deescape_dot (a ∷ b ∷ buf) n = elim (leb 2 n && (a == dot && b == dot)) [
  | true ↦ dot ∷ deescape_loop buf (n - 2)
  | false ↦ deescape_loop (a ∷ b ∷ buf) n
]
