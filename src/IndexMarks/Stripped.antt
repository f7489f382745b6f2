-- ===== src/IndexMarks/Stripped.antt =====
-- src/server/index_marking.c: marks that were put into a text can be taken out of it.
use mathlib.Core.Path.{subst}
use speechd.Base.{
  ℕ, zero, suc, ◌≤◌, ◌==◌, ◌≡◌, ◌≢◌, Bool, true, false, ◌&&◌, Option, none, some, List, [], ◌∷◌,
  ◌++◌, append_assoc, append-nil, length, length-append, arith, refl, sym, ap, ◌∙◌, All, All-append,
  if◌then◌else◌, Bool-cases, inl, inr,
}
use speechd.Base.Text.{codes}
use speechd.Types.{data_text}
use speechd.IndexMarks.{
  Uchar, Written, is_stop, ends_here, write_char, insert_loop, insert_index_marks, mark_text,
  mark_tail, digits, strstr, strip_loop, cut_end, strip_index_marks,
}
use speechd.IndexMarks.Search.{
  IsPlain, strstr-speak, strip_loop-speak, put_before, strstr-plain, strip_loop-mark,
  strip_loop-plain,
}

-- Of the characters of UTF-8, only '<' has the byte of '<'.
abbrev pub AreUtf8 : List Uchar → Type 0
AreUtf8 cs = All (λ c. c.code ≢ 60 → All IsPlain c.bytes) cs

-- A text as XML has it.
abbrev pub escape_char : Uchar → List ℕ
escape_char c =
    if c.code == 60
    then codes "&lt;"
    else if c.code == 62
    then codes "&gt;"
    else if c.code == 38
    then codes "&amp;"
    else c.bytes

abbrev pub escape_text : List Uchar → List ℕ
escape_text [] = []
escape_text (c ∷ cs) = escape_char c ++ escape_text cs

pub escape_char-IsPlain :
    (c : Uchar) → (c.code ≢ 60 → All IsPlain c.bytes) → All IsPlain (escape_char c)
escape_char-IsPlain c h = ground (arith, h)

-- The text that `cut_end` keeps, by the result of its search.
abbrev before_of : List ℕ → Option (List ℕ × List ℕ) → List ℕ
before_of text none = text
before_of text (some (before, rest)) = before

abbrev pub end_tag : List ℕ
end_tag = codes "</speak>"

module _ (isspace : ℕ → Bool) where
  -- A sentence ends with this character.
  abbrev pub ends_sentence : Uchar → List Uchar → Bool
  ends_sentence c cs = is_stop c.code && ends_here isspace cs

  abbrev pub marked : ℕ → List Uchar → List ℕ
  marked n cs = insert_loop isspace data_text false n cs

  follow : ℕ → Written → List Uchar → List ℕ
  follow n w cs = w.text ++ insert_loop isspace data_text w.inside_tag w.n cs

  write_char-ends :
      (n : ℕ) (c : Uchar) (cs : List Uchar)
      → ends_sentence c cs ≡ true
      → write_char isspace data_text false n c cs
        ≡ record { text = escape_char c ++ mark_text n; inside_tag = false; n = suc n }
  unfolding write_char
  write_char-ends n c cs h = ground (arith, h)

  write_char-goes_on :
      (n : ℕ) (c : Uchar) (cs : List Uchar)
      → ends_sentence c cs ≡ false
      → write_char isspace data_text false n c cs
        ≡ record { text = escape_char c; inside_tag = false; n = n }
  unfolding write_char
  write_char-goes_on n c cs h = ground (arith, h)

  pub insert_loop-ends :
      (n : ℕ) (c : Uchar) (cs : List Uchar)
      → ends_sentence c cs ≡ true
      → marked n (c ∷ cs) ≡ escape_char c ++ (mark_text n ++ marked (suc n) cs)
  unfolding insert_loop follow
  insert_loop-ends n c cs h =
      ap (λ w. follow n w cs) (write_char-ends n c cs h)
      ∙ append_assoc (escape_char c) (mark_text n) (marked (suc n) cs)

  pub insert_loop-goes_on :
      (n : ℕ) (c : Uchar) (cs : List Uchar)
      → ends_sentence c cs ≡ false
      → marked n (c ∷ cs) ≡ escape_char c ++ marked n cs
  unfolding insert_loop follow
  insert_loop-goes_on n c cs h = ap (λ w. follow n w cs) (write_char-goes_on n c cs h)

  mark_text-long : (n : ℕ) (text : List ℕ) → suc (length text) ≤ length (mark_text n ++ text)
  unfolding mark_text
  mark_text-long n text = omega (arith, length-append (digits n n ++ mark_tail) text)

  strip_loop-end : (fuel : ℕ) → strip_loop fuel end_tag ≡ end_tag
  unfolding strip_loop strstr
  strip_loop-end zero = refl
  strip_loop-end (suc fuel) = refl

  strip_loop-first :
      (fuel : ℕ) (w text : List ℕ)
      → All IsPlain w
      → strip_loop fuel ((w ++ text) ++ end_tag) ≡ w ++ strip_loop fuel (text ++ end_tag)
  strip_loop-first fuel w text h =
      ap (strip_loop fuel) (append_assoc w text end_tag)
      ∙ strip_loop-plain fuel w (text ++ end_tag) h

  -- A mark takes one round.
  strip_loop-over :
      (fuel n : ℕ) (text : List ℕ) {left : List ℕ}
      → length (mark_text n ++ text) ≤ fuel
      → ((f : ℕ) → length text ≤ f → strip_loop f (text ++ end_tag) ≡ left)
      → strip_loop fuel ((mark_text n ++ text) ++ end_tag) ≡ left
  strip_loop-over zero n text h ih = absurd (omega (arith, mark_text-long n text, h))
  strip_loop-over (suc f) n text h ih =
      ap (strip_loop (suc f)) (append_assoc (mark_text n) text end_tag)
      ∙ strip_loop-mark f n (text ++ end_tag)
      ∙ ih f (omega (arith, mark_text-long n text, h))

  -- Enough rounds for every mark: the text is longer than it has marks.
  strip_loop-marked :
      (fuel n : ℕ) (cs : List Uchar)
      → AreUtf8 cs
      → length (marked n cs) ≤ fuel
      → strip_loop fuel (marked n cs ++ end_tag) ≡ escape_text cs ++ end_tag
  unfolding insert_loop
  strip_loop-marked fuel n [] u h = strip_loop-end fuel
  strip_loop-marked fuel n (c ∷ cs) u h = elim (Bool-cases (ends_sentence c cs)) [
    | inl e ↦
        let g : length (escape_char c ++ (mark_text n ++ marked (suc n) cs)) ≤ fuel =
          subst (λ x. length x ≤ fuel) (insert_loop-ends n c cs e) h in
        ap (λ x. strip_loop fuel (x ++ end_tag)) (insert_loop-ends n c cs e)
        ∙ strip_loop-first fuel (escape_char c) (mark_text n ++ marked (suc n) cs)
            (escape_char-IsPlain c u.0)
        ∙ ap (escape_char c ++◌) (
            strip_loop-over fuel n (marked (suc n) cs)
              (omega (arith, length-append (escape_char c) (mark_text n ++ marked (suc n) cs), g))
              (λ f k. strip_loop-marked f (suc n) cs u.1 k))
        ∙ sym (append_assoc (escape_char c) (escape_text cs) end_tag)
    | inr e ↦
        let g : length (escape_char c ++ marked n cs) ≤ fuel =
          subst (λ x. length x ≤ fuel) (insert_loop-goes_on n c cs e) h in
        ap (λ x. strip_loop fuel (x ++ end_tag)) (insert_loop-goes_on n c cs e)
        ∙ strip_loop-first fuel (escape_char c) (marked n cs) (escape_char-IsPlain c u.0)
        ∙ ap (escape_char c ++◌) (
            strip_loop-marked fuel n cs u.1
              (omega (arith, length-append (escape_char c) (marked n cs), g)))
        ∙ sym (append_assoc (escape_char c) (escape_text cs) end_tag)
  ]

  escape_text-IsPlain : (cs : List Uchar) → AreUtf8 cs → All IsPlain (escape_text cs)
  escape_text-IsPlain [] u = tt
  escape_text-IsPlain (c ∷ cs) u =
      All-append IsPlain (escape_char c) (escape_text cs) (escape_char-IsPlain c u.0)
        (escape_text-IsPlain cs u.1)

  -- The text up to the closing tag.
  cut_end-plain : (text : List ℕ) → All IsPlain text → cut_end (text ++ end_tag) ≡ text
  unfolding cut_end strstr
  cut_end-plain text h =
      ap (before_of (text ++ end_tag)) (strstr-plain text end_tag (codes "/speak>") h)
      ∙ append-nil text

  cut_end-speak :
      (text : List ℕ)
      → All IsPlain text
      → cut_end (codes "<speak>" ++ (text ++ end_tag)) ≡ codes "<speak>" ++ text
  unfolding cut_end strstr
  cut_end-speak text h =
      ap (before_of _) (
        strstr-speak (text ++ end_tag) (codes "/speak>") refl
        ∙ ap (put_before (codes "<speak>")) (strstr-plain text end_tag (codes "/speak>") h))
      ∙ ap (codes "<speak>" ++◌) (append-nil text)

  pub strip_index_marks-marked :
      (n : ℕ) (cs : List Uchar)
      → AreUtf8 cs
      → strip_index_marks (marked n cs ++ end_tag) data_text ≡ escape_text cs
  unfolding strip_index_marks
  strip_index_marks-marked n cs u =
      ap cut_end (
        strip_loop-marked (suc (length (marked n cs ++ end_tag))) n cs u
          (omega (arith, length-append (marked n cs) end_tag)))
      ∙ cut_end-plain (escape_text cs) (escape_text-IsPlain cs u)

  -- Taking the marks out of a text that they were put into, from its beginning, gives the text
  -- with the entities of XML for '<', '>' and '&', and with the opening tag that was put before it; its
  -- bytes are those of UTF-8.
  strip_index_marks-insert_index_marks :
      (cs : List Uchar)
      → AreUtf8 cs
      → strip_index_marks (insert_index_marks isspace cs data_text) data_text
        ≡ codes "<speak>" ++ escape_text cs
  unfolding strip_index_marks insert_index_marks
  strip_index_marks-insert_index_marks cs u =
      let buf = insert_index_marks isspace cs data_text in
      ap cut_end (
        strip_loop-speak (suc (length buf)) (marked 0 cs ++ end_tag)
        ∙ ap (codes "<speak>" ++◌) (
            strip_loop-marked (suc (length buf)) 0 cs u
              (omega (arith, length-append (marked 0 cs) end_tag))))
      ∙ cut_end-speak (escape_text cs) (escape_text-IsPlain cs u)
