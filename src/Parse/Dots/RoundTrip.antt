-- ===== src/Parse/Dots/RoundTrip.antt =====
-- What the client escapes, the server reads back.
use speechd.Base.{
  ℕ, zero, suc, ◌==◌, ◌≡◌, refl, sym, ap, ◌∙◌, Bool, true, false, ◌&&◌, inl, inr, List, [], ◌∷◌,
  ◌++◌, length, arith, Bool-cases, ==_iff, leb, ◌-◌,
}
use speechd.Parse.Dots.{
  cr, lf, dot, is_dotline, escape_dot, escape_loop, deescape_dot, deescape_loop,
}

-- The rest of a line end and a full stop.
abbrev pub goes_on : List ℕ → Bool
goes_on (b ∷ c ∷ text) = b == lf && c == dot
goes_on _ = false

deescape_loop-copies :
    (a : ℕ) (buf : List ℕ) (n : ℕ)
    → (a == cr && goes_on buf) ≡ false
    → deescape_loop (a ∷ buf) (suc n) ≡ a ∷ deescape_loop buf n
unfolding deescape_loop
deescape_loop-copies a [] zero h = refl
deescape_loop-copies a [] (suc n) h = refl
deescape_loop-copies a (b ∷ []) n h = refl
deescape_loop-copies a (b ∷ c ∷ []) n h = refl
deescape_loop-copies a (b ∷ c ∷ d ∷ buf) n h = rw (h, deescape_loop) refl

pub escape_loop-dotline :
    (a b c : ℕ) (text : List ℕ)
    → is_dotline a b c ≡ true
    → escape_loop (a ∷ b ∷ c ∷ text) ≡ cr ∷ lf ∷ dot ∷ dot ∷ escape_loop text
unfolding escape_loop
escape_loop-dotline a b c text e = rw (e, escape_loop) refl

pub escape_loop-copies :
    (a b c : ℕ) (text : List ℕ)
    → is_dotline a b c ≡ false
    → escape_loop (a ∷ b ∷ c ∷ text) ≡ a ∷ escape_loop (b ∷ c ∷ text)
unfolding escape_loop
escape_loop-copies a b c text e = rw (e, escape_loop) refl

-- Escaping keeps the first byte.
escape_loop-head : (a : ℕ) (text : List ℕ) → (rest : List ℕ) × (escape_loop (a ∷ text) ≡ a ∷ rest)
unfolding escape_loop
escape_loop-head a [] = ([], refl)
escape_loop-head a (b ∷ []) = (b ∷ [], refl)
escape_loop-head a (b ∷ c ∷ text) = elim (Bool-cases (is_dotline a b c)) [
  | inl e ↦ (lf ∷ dot ∷ dot ∷ escape_loop text, ground (arith, escape_loop-dotline a b c text e))
  | inr e ↦ (escape_loop (b ∷ c ∷ text), escape_loop-copies a b c text e)
]

goes_on-escape_loop : (text : List ℕ) → goes_on (escape_loop text ++ (cr ∷ lf ∷ [])) ≡ goes_on text
unfolding escape_loop
goes_on-escape_loop [] = refl
goes_on-escape_loop (a ∷ []) = ground arith
goes_on-escape_loop (a ∷ b ∷ []) = refl
goes_on-escape_loop (a ∷ b ∷ c ∷ text) = elim (Bool-cases (is_dotline a b c)) [
  | inl e ↦ rw (escape_loop-dotline a b c text e) (ground arith)
  | inr e ↦
      let (rest, h) = escape_loop-head b (c ∷ text) in
      rw (escape_loop-copies a b c text e) (rw h refl)
]

sub_three : (n : ℕ) → suc (suc (suc n)) - 3 ≡ n
sub_three n = omega arith

sub_two : (n : ℕ) → suc (suc n) - 2 ≡ n
sub_two n = omega arith

two_leb : (n : ℕ) → leb 2 (suc (suc n)) ≡ true
two_leb n = ground arith

deescape_loop-dotline :
    (buf : List ℕ) (n : ℕ)
    → deescape_loop (cr ∷ lf ∷ dot ∷ dot ∷ buf) (suc (suc (suc (suc n))))
      ≡ cr ∷ lf ∷ dot ∷ deescape_loop buf n
unfolding deescape_loop
deescape_loop-dotline buf n = ap (λ k. cr ∷ lf ∷ dot ∷ deescape_loop buf k) (sub_three n)

pub is_dotline-bytes :
    (a b c : ℕ) (text : List ℕ) → is_dotline a b c ≡ true → cr ∷ lf ∷ dot ∷ text ≡ a ∷ b ∷ c ∷ text
is_dotline-bytes a b c text e = ground arith

deescape_loop-escape_loop :
    (text : List ℕ)
    → deescape_loop (escape_loop text ++ (cr ∷ lf ∷ [])) (length (escape_loop text)) ≡ text
unfolding escape_loop deescape_loop
deescape_loop-escape_loop [] = refl
deescape_loop-escape_loop (a ∷ []) = refl
deescape_loop-escape_loop (a ∷ b ∷ []) = deescape_loop-copies a (b ∷ cr ∷ lf ∷ []) 1 (ground arith)
deescape_loop-escape_loop (a ∷ b ∷ c ∷ text) = elim (Bool-cases (is_dotline a b c)) [
  | inl e ↦ rw (escape_loop-dotline a b c text e) (
      deescape_loop-dotline (escape_loop text ++ (cr ∷ lf ∷ [])) (length (escape_loop text))
      ∙ ap (λ x. cr ∷ lf ∷ dot ∷ x) (deescape_loop-escape_loop text)
      ∙ is_dotline-bytes a b c text e)
  | inr e ↦ rw (escape_loop-copies a b c text e) (
      rw
        (deescape_loop-copies a (escape_loop (b ∷ c ∷ text) ++ (cr ∷ lf ∷ []))
          (length (escape_loop (b ∷ c ∷ text))) (rw (goes_on-escape_loop (b ∷ c ∷ text)) e))
        (rw (deescape_loop-escape_loop (b ∷ c ∷ text)) refl))
]

deescape_dot-dots :
    (buf : List ℕ) (n : ℕ)
    → deescape_dot (dot ∷ dot ∷ buf) (suc (suc n)) ≡ dot ∷ deescape_loop buf n
unfolding deescape_dot
deescape_dot-dots buf n =
    rw (two_leb n, deescape_dot) (ap (λ k. dot ∷ deescape_loop buf k) (sub_two n))

deescape_dot-plain :
    (a : ℕ) (buf : List ℕ) (n : ℕ)
    → (a == dot) ≡ false
    → deescape_dot (a ∷ buf) n ≡ deescape_loop (a ∷ buf) n
unfolding deescape_dot
deescape_dot-plain a [] n h = refl
deescape_dot-plain a (b ∷ buf) n h = ground arith

pub escape_dot-dot :
    (a : ℕ) (text : List ℕ)
    → (a == dot) ≡ true
    → escape_dot (a ∷ text) ≡ dot ∷ dot ∷ escape_loop text
unfolding escape_dot
escape_dot-dot a text e = rw (e, escape_dot) refl

pub escape_dot-plain :
    (a : ℕ) (text : List ℕ) → (a == dot) ≡ false → escape_dot (a ∷ text) ≡ escape_loop (a ∷ text)
unfolding escape_dot
escape_dot-plain a text e = rw (e, escape_dot) refl

-- What the server makes of the escaped text, with the line end that the client adds behind it in the
-- buffer, is the text.
pub deescape_dot-escape_dot :
    (text : List ℕ)
    → deescape_dot (escape_dot text ++ (cr ∷ lf ∷ [])) (length (escape_dot text)) ≡ text
unfolding escape_dot deescape_dot
deescape_dot-escape_dot [] = refl
deescape_dot-escape_dot (a ∷ text) = elim (Bool-cases (a == dot)) [
  | inl e ↦ rw (escape_dot-dot a text e) (
      deescape_dot-dots (escape_loop text ++ (cr ∷ lf ∷ [])) (length (escape_loop text))
      ∙ ap (λ x. dot ∷ x) (deescape_loop-escape_loop text)
      ∙ ap (λ x. x ∷ text) (sym ((==_iff a dot).0 e)))
  | inr e ↦
      let (rest, h) = escape_loop-head a text in
      rw (escape_dot-plain a text e) (
        ap (λ x. deescape_dot (x ++ (cr ∷ lf ∷ [])) (length (escape_loop (a ∷ text)))) h
        ∙ deescape_dot-plain a (rest ++ (cr ∷ lf ∷ [])) (length (escape_loop (a ∷ text))) e
        ∙ ap (λ x. deescape_loop (x ++ (cr ∷ lf ∷ [])) (length (escape_loop (a ∷ text)))) (sym h)
        ∙ deescape_loop-escape_loop (a ∷ text))
]
