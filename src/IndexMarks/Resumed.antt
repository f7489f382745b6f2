-- ===== src/IndexMarks/Resumed.antt =====
-- src/server/index_marking.c: a mark that was put into a text leads to the rest of it.
use speechd.Base.{
  ℕ, zero, suc, ◌+◌, ◌≡◌, ◌≢◌, Bool, true, false, Option, none, some, List, [], ◌∷◌, ◌++◌,
  append_assoc, arith, refl, sym, ap, ◌∙◌, All, if◌then◌else◌, Bool-cases, inl, inr,
}
use speechd.Types.{data_text}
use speechd.IndexMarks.{
  Uchar, insert_loop, insert_index_marks, mark_text, strstr, find_index_mark, strip_index_marks,
}
use speechd.IndexMarks.Search.{
  IsPlain, find_index_mark-speak, find_index_mark_self, find_index_mark-plain,
  find_index_mark-other,
}
use speechd.IndexMarks.Stripped.{
  AreUtf8, escape_char, escape_text, escape_char-IsPlain, end_tag, ends_sentence, marked,
  insert_loop-ends, insert_loop-goes_on, strip_index_marks-marked,
}

abbrev RestIsUtf8 : Option (List Uchar) → Type 0
RestIsUtf8 none = Unit
RestIsUtf8 (some cs) = AreUtf8 cs

-- A text that was found, without its marks.
abbrev strip_found : Option (List ℕ) → Option (List ℕ)
strip_found none = none
strip_found (some pos) = some (strip_index_marks pos data_text)

-- The text that `find_index_mark` and `strip_index_marks` make of a marked text.
abbrev pub text_after : List ℕ → ℕ → Option (List ℕ)
text_after buf n = strip_found (find_index_mark buf n)

abbrev pub escaped_rest : Option (List Uchar) → Option (List ℕ)
escaped_rest none = none
escaped_rest (some cs) = some (escape_text cs)

module _ (isspace : ℕ → Bool) where
  -- The text behind its first n + 1 sentences.
  abbrev pub rest_after : ℕ → List Uchar → Option (List Uchar)
  rest_after n [] = none
  rest_after zero (c ∷ cs) = if ends_sentence isspace c cs then some cs else rest_after zero cs
  rest_after (suc n) (c ∷ cs) = rest_after (if ends_sentence isspace c cs then n else suc n) cs

  find_index_mark-end : (n : ℕ) → find_index_mark end_tag n ≡ none
  unfolding find_index_mark strstr mark_text
  find_index_mark-end n = refl

  -- The marked isspace text behind a sentence.
  found : ℕ → Option (List Uchar) → Option (List ℕ)
  found n none = none
  found n (some cs) = some (marked isspace (suc n) cs ++ end_tag)

  find_index_mark-first :
      (n : ℕ) (w text : List ℕ)
      → All IsPlain w
      → find_index_mark ((w ++ text) ++ end_tag) n ≡ find_index_mark (text ++ end_tag) n
  find_index_mark-first n w text h =
      ap (λ x. find_index_mark x n) (append_assoc w text end_tag)
      ∙ find_index_mark-plain n w (text ++ end_tag) h

  find_index_mark-here :
      (n k : ℕ) (text : List ℕ)
      → n ≡ k
      → find_index_mark ((mark_text k ++ text) ++ end_tag) n ≡ some (text ++ end_tag)
  find_index_mark-here n k text e =
      ap (find_index_mark ((mark_text k ++ text) ++ end_tag)) e
      ∙ ap (λ x. find_index_mark x k) (append_assoc (mark_text k) text end_tag)
      ∙ find_index_mark_self k (text ++ end_tag)

  find_index_mark-beyond :
      (n k : ℕ) (text : List ℕ)
      → n ≢ k
      → find_index_mark ((mark_text k ++ text) ++ end_tag) n ≡ find_index_mark (text ++ end_tag) n
  find_index_mark-beyond n k text e =
      ap (λ x. find_index_mark x n) (append_assoc (mark_text k) text end_tag)
      ∙ find_index_mark-other n k (text ++ end_tag) e

  -- The step over one character: what is searched is behind it, and behind a mark that may follow it.
  find_index_mark-ends :
      (n k : ℕ) (c : Uchar) (cs : List Uchar)
      → AreUtf8 (c ∷ cs)
      → ends_sentence isspace c cs ≡ true
      → find_index_mark (marked isspace k (c ∷ cs) ++ end_tag) n
        ≡ find_index_mark ((mark_text k ++ marked isspace (suc k) cs) ++ end_tag) n
  find_index_mark-ends n k c cs u h =
      ap (λ x. find_index_mark (x ++ end_tag) n) (insert_loop-ends isspace k c cs h)
      ∙ find_index_mark-first n (escape_char c) (mark_text k ++ marked isspace (suc k) cs)
          (escape_char-IsPlain c u.0)

  find_index_mark-goes_on :
      (n k : ℕ) (c : Uchar) (cs : List Uchar)
      → AreUtf8 (c ∷ cs)
      → ends_sentence isspace c cs ≡ false
      → find_index_mark (marked isspace k (c ∷ cs) ++ end_tag) n
        ≡ find_index_mark (marked isspace k cs ++ end_tag) n
  find_index_mark-goes_on n k c cs u h =
      ap (λ x. find_index_mark (x ++ end_tag) n) (insert_loop-goes_on isspace k c cs h)
      ∙ find_index_mark-first n (escape_char c) (marked isspace k cs) (escape_char-IsPlain c u.0)

  find_index_mark-marked :
      (n k d : ℕ) (cs : List Uchar)
      → AreUtf8 cs
      → n ≡ k + d
      → find_index_mark (marked isspace k cs ++ end_tag) n ≡ found n (rest_after d cs)
  unfolding found insert_loop
  find_index_mark-marked n k zero [] u e = find_index_mark-end n
  find_index_mark-marked n k (suc d) [] u e = find_index_mark-end n
  find_index_mark-marked n k zero (c ∷ cs) u e = elim (Bool-cases (ends_sentence isspace c cs)) [
    | inl h ↦
        find_index_mark-ends n k c cs u h
        ∙ find_index_mark-here n k (marked isspace (suc k) cs) (omega (arith, e))
        ∙ ap (λ j. found j (some cs)) (omega (arith, e))
        ∙ ap (λ b. found n (if b then some cs else rest_after zero cs)) (sym h)
    | inr h ↦
        find_index_mark-goes_on n k c cs u h
        ∙ find_index_mark-marked n k zero cs u.1 e
        ∙ ap (λ b. found n (if b then some cs else rest_after zero cs)) (sym h)
  ]
  find_index_mark-marked n k (suc d) (c ∷ cs) u e = elim (Bool-cases (ends_sentence isspace c cs)) [
    | inl h ↦
        find_index_mark-ends n k c cs u h
        ∙ find_index_mark-beyond n k (marked isspace (suc k) cs) (λ g. omega (arith, e, g))
        ∙ find_index_mark-marked n (suc k) d cs u.1 (omega (arith, e))
        ∙ ap (λ b. found n (rest_after (if b then d else suc d) cs)) (sym h)
    | inr h ↦
        find_index_mark-goes_on n k c cs u h
        ∙ find_index_mark-marked n k (suc d) cs u.1 e
        ∙ ap (λ b. found n (rest_after (if b then d else suc d) cs)) (sym h)
  ]

  text_after-found :
      (n : ℕ) (buf : List ℕ) (o : Option (List Uchar))
      → RestIsUtf8 o
      → find_index_mark buf n ≡ found n o
      → text_after buf n ≡ escaped_rest o
  unfolding found
  text_after-found n buf none u e = ground (arith, e)
  text_after-found n buf (some cs) u e =
      ap strip_found e ∙ ap some (strip_index_marks-marked isspace (suc n) cs u)

  rest_after-IsUtf8 : (d : ℕ) (cs : List Uchar) → AreUtf8 cs → RestIsUtf8 (rest_after d cs)
  rest_after-IsUtf8 d [] u = tt
  rest_after-IsUtf8 zero (c ∷ cs) u = ground (arith, u, rest_after-IsUtf8 zero cs u.1)
  rest_after-IsUtf8 (suc d) (c ∷ cs) u =
      ground (arith, u, rest_after-IsUtf8 d cs u.1, rest_after-IsUtf8 (suc d) cs u.1)

  -- The text that find_index_mark finds for the mark with the number n in a text that marks were put into, without
  -- its marks, is the text behind the first n + 1 sentences, with the entities of XML for '<', '>' and '&', if there
  -- are so many sentences that end before the end of the text; otherwise nothing is found.
  pub text_after-insert_index_marks :
      (n : ℕ) (cs : List Uchar)
      → AreUtf8 cs
      → text_after (insert_index_marks isspace cs data_text) n ≡ escaped_rest (rest_after n cs)
  unfolding insert_index_marks
  text_after-insert_index_marks n cs u =
      text_after-found n (insert_index_marks isspace cs data_text) (rest_after n cs)
        (rest_after-IsUtf8 n cs u)
        (find_index_mark-speak n (marked isspace 0 cs ++ end_tag)
          ∙ find_index_mark-marked n 0 n cs u (omega arith))
