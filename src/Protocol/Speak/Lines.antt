-- ===== src/Protocol/Speak/Lines.antt =====
-- src/modules/module_process.c: the lines that the loop of cmd_speak reads of a text that the server
-- escaped.
use mathlib.Core.Path.{subst}
use speechd.Base.{
  ==_iff, ℕ, suc, ◌+◌, ◌==◌, ◌≡◌, refl, sym, ap, ◌∙◌, Bool, true, false, not, ◌&&◌, ◌||◌, Option,
  some, List, [], ◌∷◌, ◌++◌, append_assoc, append-nil, drop_last, Bool-cases, inl, inr,
  if◌then◌else◌, arith,
}
use speechd.Base.Text.{same_bytes}
use speechd.Server.Modules.{escape_lines, escape_line_dots}
use speechd.Protocol.{lf, dot, lines_from, lines_of}
use speechd.Protocol.Speak.{last_line, undot, receive_text}

-- The line ends in a text.
abbrev pub line_ends : List ℕ → ℕ
line_ends [] = 0
line_ends (c ∷ text) = let n = line_ends text in if c == lf then suc n else n

-- A part `line` of a line, with the text that follows it: the line does not end the data, and taking off the full
-- stop of the line is taking off that of the part.
abbrev is_open : List ℕ → List ℕ → Bool
is_open [] [] = true
is_open [] (c ∷ text) = not (c == dot)
is_open (c ∷ []) text = not (c == dot)
is_open (c ∷ d ∷ line) text = not (c == dot) || d == dot

is_open-snoc :
    (line text : List ℕ) (c : ℕ)
    → is_open line (c ∷ text) ≡ true
    → (is_open (line ++ c ∷ []) text ≡ true) × (undot (line ++ c ∷ []) ≡ undot line ++ c ∷ [])
is_open-snoc [] text c h = ground (arith, h)
is_open-snoc (d ∷ []) text c h = ground (arith, h)
is_open-snoc (d ∷ e ∷ line) text c h = ground (arith, h)

is_open-ends :
    (line text : List ℕ)
    → is_open line text ≡ true
    → (same_bytes (line ++ lf ∷ []) last_line ≡ false)
is_open-ends [] text h = refl
is_open-ends (d ∷ []) text h = ground (arith, h)
is_open-ends (d ∷ e ∷ []) text h = ground (arith, h)
is_open-ends (d ∷ e ∷ f ∷ line) text h = ground (arith, h)

undot-end : (line : List ℕ) → undot (line ++ lf ∷ []) ≡ undot line ++ lf ∷ []
undot-end [] = refl
undot-end (d ∷ line) = ground arith

drop_last-snoc : (text : List ℕ) (c : ℕ) → drop_last (text ++ c ∷ []) ≡ text
drop_last-snoc [] c = refl
drop_last-snoc (d ∷ []) c = refl
drop_last-snoc (d ∷ e ∷ text) c = ap (λ l. d ∷ l) (drop_last-snoc (e ∷ text) c)

lines_from-longer :
    (line bytes : List ℕ) (c : ℕ)
    → (c == lf) ≡ false
    → lines_from line (c ∷ bytes) ≡ lines_from (line ++ c ∷ []) bytes
unfolding lines_from
lines_from-longer line bytes c h = rw h

-- A whole line of the text.
receive_line :
    (line text bytes acc : List ℕ) (n : ℕ)
    → is_open line text ≡ true
    → receive_text (lines_from line (lf ∷ bytes)) acc n
      ≡ receive_text (lines_of bytes) (acc ++ (undot line ++ lf ∷ [])) (suc n)
unfolding lines_from receive_text
receive_line line text bytes acc n h = rw (is_open-ends line text h, undot-end line)

-- What is received if `line` was taken before and `text` follows.
abbrev pub received : List ℕ → List ℕ → ℕ → List ℕ → List ℕ → Option (List ℕ × ℕ × List (List ℕ))
received line text n acc rest =
    some (acc ++ (undot line ++ text), suc (n + line_ends text), lines_of rest)

receive_end :
    (line acc : List ℕ) (n : ℕ) (rest : List ℕ)
    → is_open line [] ≡ true
    → receive_text (lines_from line (lf ∷ dot ∷ lf ∷ rest)) acc n ≡ received line [] n acc rest
unfolding receive_text lines_from
receive_end line acc n rest h =
    receive_line line [] (dot ∷ lf ∷ rest) acc n h
    ∙ rw (← append_assoc acc (undot line) (lf ∷ []), drop_last-snoc, append-nil)
        (ap (λ k. some (acc ++ undot line, suc k, lines_of rest)) (omega arith))

received-snoc :
    (line text acc : List ℕ) (c n : ℕ) (rest : List ℕ)
    → is_open line (c ∷ text) ≡ true
    → (c == lf) ≡ false
    → received (line ++ c ∷ []) text n acc rest ≡ received line (c ∷ text) n acc rest
received-snoc line text acc c n rest h e =
    rw ((is_open-snoc line text c h).1, e, append_assoc (undot line) (c ∷ []) text)

received-line :
    (line text acc : List ℕ) (n : ℕ) (rest : List ℕ)
    → received [] text (suc n) (acc ++ (undot line ++ lf ∷ [])) rest
      ≡ received line (lf ∷ text) n acc rest
received-line line text acc n rest =
    rw (append_assoc acc (undot line ++ lf ∷ []) text, append_assoc (undot line) (lf ∷ []) text)
      (ground arith)

-- What is received from the bytes that follow, whatever part of a line was taken before.
abbrev Delivers : List ℕ → List ℕ → List ℕ → Type 0
Delivers bytes text rest =
    (line acc : List ℕ) (n : ℕ)
    → is_open line text ≡ true
    → receive_text (lines_from line bytes) acc n ≡ received line text n acc rest

-- A byte before them, which is sent as it is.
receive_byte :
    (c : ℕ) (bytes text rest : List ℕ)
    → ((c == lf) ≡ true → is_open [] text ≡ true)
    → Delivers bytes text rest
    → Delivers (c ∷ bytes) (c ∷ text) rest
receive_byte c bytes text rest h k line acc n o = elim (Bool-cases (c == lf)) [
  | inl e ↦
      subst
        (λ x.
          receive_text (lines_from line (x ∷ bytes)) acc n ≡ received line (x ∷ text) n acc rest)
        (sym ((==_iff c lf).0 e))
        (receive_line line (c ∷ text) bytes acc n o
          ∙ k [] (acc ++ (undot line ++ lf ∷ [])) (suc n) (h e)
          ∙ received-line line text acc n rest)
  | inr e ↦
      ap (λ lines. receive_text lines acc n) (lines_from-longer line bytes c e)
      ∙ k (line ++ c ∷ []) acc n (is_open-snoc line text c o).0
      ∙ received-snoc line text acc c n rest o e
]

is_open_after :
    (a b : ℕ) (text : List ℕ)
    → (a == lf && b == dot) ≡ false
    → (a == lf) ≡ true
    → is_open [] (b ∷ text) ≡ true
is_open_after a b text h e = ground arith

-- A line end and a full stop, which is doubled.
receive_dot :
    (a b : ℕ) (bytes text rest : List ℕ)
    → (a == lf && b == dot) ≡ true
    → Delivers bytes text rest
    → Delivers (lf ∷ dot ∷ dot ∷ bytes) (a ∷ b ∷ text) rest
receive_dot a b bytes text rest e k line acc n o =
    receive_line line (a ∷ b ∷ text) (dot ∷ dot ∷ bytes) acc n o
    ∙ ap (λ lines. receive_text lines (acc ++ (undot line ++ lf ∷ [])) (suc n)) (dots bytes)
    ∙ k (dot ∷ dot ∷ []) (acc ++ (undot line ++ lf ∷ [])) (suc n) refl
    ∙ rw
        (
          append_assoc acc (undot line ++ lf ∷ []) (dot ∷ text),
          append_assoc (undot line) (lf ∷ []) (dot ∷ text),
        )
        (ground (arith, e))
  where
    dots : (bytes : List ℕ) → lines_of (dot ∷ dot ∷ bytes) ≡ lines_from (dot ∷ dot ∷ []) bytes
    dots bytes =
        lines_from-longer [] (dot ∷ bytes) dot refl ∙ lines_from-longer (dot ∷ []) bytes dot refl

receive-escape_lines :
    (text rest : List ℕ) → Delivers (escape_lines text ++ (lf ∷ dot ∷ lf ∷ rest)) text rest
unfolding escape_lines
receive-escape_lines [] rest = λ line acc n h. receive_end line acc n rest h
receive-escape_lines (a ∷ []) rest =
    receive_byte a (lf ∷ dot ∷ lf ∷ rest) [] rest (λ e. refl)
      (λ line acc n h. receive_end line acc n rest h)
receive-escape_lines (a ∷ b ∷ text) rest = elim (Bool-cases (a == lf && b == dot)) [
  | inl e ↦ rw (e, escape_lines) (receive_dot a b _ text rest e (receive-escape_lines text rest))
  | inr e ↦
      rw (e, escape_lines)
        (receive_byte a _ (b ∷ text) rest (is_open_after a b text e)
          (receive-escape_lines (b ∷ text) rest))
]

pub escape_line_dots-Delivers :
    (text rest acc : List ℕ) (n : ℕ)
    → receive_text (lines_of (escape_line_dots text ++ (lf ∷ dot ∷ lf ∷ rest))) acc n
      ≡ received [] text n acc rest
unfolding escape_line_dots
escape_line_dots-Delivers [] rest acc n = receive_end [] acc n rest refl
escape_line_dots-Delivers (a ∷ text) rest acc n = elim (Bool-cases (a == dot)) [
  | inl e ↦
      rw (e, escape_line_dots)
        (subst
          (λ x.
            receive_text (lines_of (dot ∷ dot ∷ (escape_lines text ++ (lf ∷ dot ∷ lf ∷ rest)))) acc
              n
            ≡ received [] (x ∷ text) n acc rest)
          (sym ((==_iff a dot).0 e))
          (ap (λ lines. receive_text lines acc n)
              (lines_from-longer [] _ dot refl ∙ lines_from-longer (dot ∷ []) _ dot refl)
            ∙ receive-escape_lines text rest (dot ∷ dot ∷ []) acc n refl))
  | inr e ↦
      rw (e, escape_line_dots) (receive-escape_lines (a ∷ text) rest [] acc n (ground (arith, e)))
]
