-- ===== src/Parse/Data/Escaped.antt =====
-- The lines that an escaped text makes.
use mathlib.Core.Path.{subst}
use speechd.Base.{
  ℕ, ◌==◌, ◌≡◌, ◌≢◌, refl, sym, Bool, true, false, not, ◌&&◌, inl, inr, List, [], ◌∷◌, ◌++◌, arith,
  Bool-cases, append_assoc,
}
use speechd.Message.{Message}
use speechd.Server.{State}
use speechd.Parse.Dots.{cr, lf, dot, is_dotline, escape_dot, escape_loop}
use speechd.Parse.Dots.RoundTrip.{
  goes_on, escape_loop-copies, escape_loop-dotline, is_dotline-bytes, escape_dot-dot,
  escape_dot-plain,
}
use speechd.Parse.Data.{Validator}
use speechd.Parse.Data.Lines.{
  ends_cr, ends_cr-append, clean, ok_start, clean-append, ok_start-append, IsData, clean-IsData,
}
use speechd.Parse.Data.Wire.{Arrives, Arrives-append, Arrives-line, Arrives-end}

abbrev is_nil : List ℕ → Bool
is_nil [] = true
is_nil (a ∷ line) = false

abbrev starts_dot : List ℕ → Bool
starts_dot [] = false
starts_dot (a ∷ text) = a == dot

abbrev pub no_nul : List ℕ → Bool
no_nul [] = true
no_nul (a ∷ text) = not (a == 0) && no_nul text

-- What holds between the part of a line that was read and the text that is still to be escaped.
record Between (line text : List ℕ) : Type 0 where
  whole : clean line ≡ true
  start : ok_start line ≡ true
  fresh : (is_nil line && starts_dot text) ≡ false
  going : (ends_cr line && goes_on text) ≡ false

ok_start-next :
    (line : List ℕ) (a : ℕ)
    → ok_start line ≡ true
    → (is_nil line && a == dot) ≡ false
    → ok_start (line ++ a ∷ []) ≡ true
ok_start-next [] a h k = ground arith
ok_start-next (x ∷ line) a h k = ok_start-append x line a h

is_nil-append : (line : List ℕ) (a : ℕ) → is_nil (line ++ a ∷ []) ≡ false
is_nil-append [] a = refl
is_nil-append (x ∷ line) a = refl

Between-append :
    (line text : List ℕ) (a : ℕ)
    → Between line (a ∷ text)
    → (a == cr && goes_on text) ≡ false
    → (a == lf && ends_cr line) ≡ false
    → Between (line ++ a ∷ []) text
Between-append line text a h k e = record {
  whole = clean-append line a e h.whole;
  start = ok_start-next line a h.start h.fresh;
  fresh = rw (is_nil-append line a) refl;
  going = rw (ends_cr-append line a) k;
}

Between-line :
    (line text : List ℕ) (a : ℕ)
    → Between line (a ∷ text)
    → (a == lf && ends_cr line) ≡ true
    → Between [] text
Between-line line [] a h e = record { whole = refl; start = refl; fresh = refl; going = refl }
Between-line line (c ∷ text) a h e = record {
  whole = refl;
  start = refl;
  fresh = ground (arith, h.going);
  going = refl;
}

is_line :
    (line : List ℕ) (a : ℕ) → (a == lf && ends_cr line) ≡ true → (a ≡ lf) × (ends_cr line ≡ true)
is_line line a e = ground arith

no_nul-head : (a : ℕ) (text : List ℕ) → no_nul (a ∷ text) ≡ true → a ≢ 0
no_nul-head a text h = ground arith

no_nul-tail : (a : ℕ) (text : List ℕ) → no_nul (a ∷ text) ≡ true → no_nul text ≡ true
no_nul-tail a text h = ground arith

is_nil-cr : (line : List ℕ) → (is_nil line && cr == dot) ≡ false
is_nil-cr line = ground arith

cr-IsData :
    (line : List ℕ)
    → clean line ≡ true
    → ok_start line ≡ true
    → (is_nil line && cr == dot) ≡ false
    → IsData ((line ++ cr ∷ []) ++ lf ∷ [])
cr-IsData line h k e =
    clean-IsData (line ++ cr ∷ []) lf (clean-append line cr refl h) (ok_start-next line cr k e)

module _ (v : Validator) (blank : Message) (fd : ℕ) (s : State) (rest : List ℕ) where
  Arrives-copies :
      (line text sent : List ℕ) (a : ℕ)
      → a ≢ 0
      → Between line (a ∷ text)
      → (a == cr && goes_on text) ≡ false
      → ((l : List ℕ) → Between l text → Arrives v blank fd s rest l sent)
      → Arrives v blank fd s rest line (a ∷ sent)
  Arrives-copies line text sent a h b k more = elim (Bool-cases (a == lf && ends_cr line)) [
    | inl e ↦
        subst (λ c. Arrives v blank fd s rest line (c ∷ sent)) (sym (is_line line a e).0)
          (Arrives-line v blank fd s rest line sent (is_line line a e).1
            (clean-IsData line lf b.whole b.start) (more [] (Between-line line text a b e)))
    | inr e ↦
        Arrives-append v blank fd s rest line a sent h e
          (more (line ++ a ∷ []) (Between-append line text a b k e))
  ]

  -- Two full stops at the start of a line.
  Arrives-dots :
      (text sent : List ℕ)
      → ((l : List ℕ) → Between l text → Arrives v blank fd s rest l sent)
      → Arrives v blank fd s rest [] (dot ∷ dot ∷ sent)
  Arrives-dots text sent more =
      Arrives-append v blank fd s rest [] dot (dot ∷ sent) (omega arith) refl (
        Arrives-append v blank fd s rest (dot ∷ []) dot sent (omega arith) refl (
          more (dot ∷ dot ∷ [])
            (record { whole = refl; start = refl; fresh = refl; going = refl })))

  -- A line end with a doubled full stop behind it.
  Arrives-dotline :
      (line text sent : List ℕ)
      → Between line (cr ∷ lf ∷ dot ∷ text)
      → ((l : List ℕ) → Between l text → Arrives v blank fd s rest l sent)
      → Arrives v blank fd s rest line (cr ∷ lf ∷ dot ∷ dot ∷ sent)
  Arrives-dotline line text sent b more =
      Arrives-append v blank fd s rest line cr (lf ∷ dot ∷ dot ∷ sent) (omega arith) refl (
        Arrives-line v blank fd s rest (line ++ cr ∷ []) (dot ∷ dot ∷ sent) (ends_cr-append line cr)
          (cr-IsData line b.whole b.start (is_nil-cr line)) (Arrives-dots text sent more))

  Arrives-nothing : (line : List ℕ) → Between line [] → Arrives v blank fd s rest line []
  Arrives-nothing line b = Arrives-end v blank fd s rest line (
      subst IsData (append_assoc line (cr ∷ []) (lf ∷ []))
        (cr-IsData line b.whole b.start (is_nil-cr line)))

  Arrives-escape_loop :
      (text line : List ℕ)
      → no_nul text ≡ true
      → Between line text
      → Arrives v blank fd s rest line (escape_loop text)
  unfolding escape_loop
  Arrives-escape_loop [] line h b = Arrives-nothing line b
  Arrives-escape_loop (a ∷ []) line h b =
      Arrives-copies line [] [] a (no_nul-head a [] h) b (ground arith) (Arrives-nothing)
  Arrives-escape_loop (a ∷ c ∷ []) line h b =
      Arrives-copies line (c ∷ []) (c ∷ []) a (no_nul-head a (c ∷ []) h) b (ground arith)
        (λ l k. Arrives-escape_loop (c ∷ []) l (no_nul-tail a (c ∷ []) h) k)
  Arrives-escape_loop (a ∷ c ∷ d ∷ text) line h b = elim (Bool-cases (is_dotline a c d)) [
    | inl e ↦ subst (Arrives v blank fd s rest line) (sym (escape_loop-dotline a c d text e)) (
        Arrives-dotline line text (escape_loop text)
          (subst (Between line) (sym (is_dotline-bytes a c d text e)) b)
          (λ l k. Arrives-escape_loop text l (ground arith) k))
    | inr e ↦ subst (Arrives v blank fd s rest line) (sym (escape_loop-copies a c d text e)) (
        Arrives-copies line (c ∷ d ∷ text) (escape_loop (c ∷ d ∷ text)) a
          (no_nul-head a (c ∷ d ∷ text) h) b e
          (λ l k. Arrives-escape_loop (c ∷ d ∷ text) l (no_nul-tail a (c ∷ d ∷ text) h) k))
  ]

  pub Arrives-escape_dot :
      (text : List ℕ) → no_nul text ≡ true → Arrives v blank fd s rest [] (escape_dot text)
  unfolding escape_dot
  Arrives-escape_dot [] h =
      Arrives-nothing [] (record { whole = refl; start = refl; fresh = refl; going = refl })
  Arrives-escape_dot (a ∷ text) h = elim (Bool-cases (a == dot)) [
    | inl e ↦ subst (Arrives v blank fd s rest []) (sym (escape_dot-dot a text e)) (
        Arrives-dots text (escape_loop text)
          (λ l k. Arrives-escape_loop text l (no_nul-tail a text h) k))
    | inr e ↦ subst (Arrives v blank fd s rest []) (sym (escape_dot-plain a text e)) (
        Arrives-escape_loop (a ∷ text) [] h
          (record { whole = refl; start = refl; fresh = e; going = refl }))
  ]
