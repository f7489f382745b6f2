-- ===== src/Parse/Data/Wire.antt =====
-- A text that was escaped by the client arrives.
use speechd.Base.{
  ℕ, zero, suc, ◌==◌, ◌≡◌, ◌≢◌, ◌<◌, refl, ap, ◌∙◌, Bool, true, false, ◌&&◌, inl, inr, Option, none,
  some, List, [], ◌∷◌, ◌++◌, length, arith, ne→==, Bool-cases, Option-cases, append_assoc,
  length-append,
}
use speechd.Base.Int.{ℤ, pos}
use speechd.Message.{Message}
use speechd.Types.{msg_text}
use speechd.Server.{State, Run, done, fault, ◌>>=◌}
use speechd.Speaking.Enqueue.{queue_message}
use speechd.Parse.Dots.{cr, lf}
use speechd.Parse.Data.{
  Validator, Sock, allocate, stop_collecting, Reply, receiving, parse_data, finish, submit, answer,
  read_line, receive, collect, end_of_data, dot_line,
}
use speechd.Parse.Data.Lines.{ends_cr-append, ends_cr, IsData}

-- No reply to a finished message is the one that asks for more.
abbrev is_final : Run (Reply × Sock × State) → Bool
is_final (done (receiving, sock, s)) = false
is_final _ = true

answer-final : (sock : Sock) (r : Run (ℤ × State)) → is_final (r >>= answer sock) ≡ true
unfolding answer
answer-final sock (done (id, s)) = ground arith
answer-final sock (fault e) = refl

read_line-append :
    (line : List ℕ) (c : ℕ) (sent : List ℕ)
    → c ≢ 0
    → (c == lf && ends_cr line) ≡ false
    → read_line line (c ∷ sent) ≡ read_line (line ++ c ∷ []) sent
unfolding read_line
read_line-append line c sent h k = rw (k, ne→== c 0 h, read_line) refl

read_line-line :
    (line sent : List ℕ)
    → ends_cr line ≡ true
    → read_line line (lf ∷ sent) ≡ some (line ++ lf ∷ [], sent)
unfolding read_line
read_line-line line sent h = rw (h, read_line) refl

collect-append : (a b : List ℕ) (sock : Sock) → collect b (collect a sock) ≡ collect (a ++ b) sock
collect-append a b sock = elim (Option-cases sock.o_buf) [
  | inl e ↦ ground (arith, length-append a b)
  | inr (buf, e) ↦ ground (arith, length-append a b, append_assoc buf a b)
]

module _ (v : Validator) (blank : Message) (fd : ℕ) (s : State) (rest : List ℕ) where
  -- `receive`, once a line was parsed, and once it was read.
  abbrev pub next :
      ℕ → List ℕ → Run (Reply × Sock × State) → Option (Run (Reply × Sock × State) × List ℕ)
  next fuel more r = elim r [
    | done (receiving, sock, t) ↦ receive fuel v blank fd more sock t
    | r ↦ some (r, more)
  ]

  abbrev pub after :
      ℕ → Sock → Option (List ℕ × List ℕ) → Option (Run (Reply × Sock × State) × List ℕ)
  after fuel sock line = elim line [
    | none ↦ none
    | some (l, more) ↦ next fuel more (parse_data v blank l fd sock s)
  ]

  next-final :
      (fuel : ℕ) (more : List ℕ) (r : Run (Reply × Sock × State))
      → is_final r ≡ true
      → next fuel more r ≡ some (r, more)
  next-final fuel more r h = ground arith

  submit-final : (sock : Sock) → is_final (submit v blank fd sock s) ≡ true
  unfolding submit
  submit-final sock = elim (Option-cases sock.o_buf) [
    | inl e ↦ rw e refl
    | inr (buf, e) ↦ elim (Bool-cases (v buf sock.o_bytes)) [
      | inl ok ↦
          rw (e, ok)
            (answer-final (record sock { o_buf = some buf })
              (queue_message (allocate blank buf sock.o_bytes s) (pos fd) msg_text sock.inside_block
                (record s { next_addr = suc s.next_addr })))
      | inr bad ↦ rw (e, bad) refl
    ]
  ]

  finish-final : (n : ℕ) (sock : Sock) → is_final (finish v blank n fd sock s) ≡ true
  unfolding finish
  finish-final n sock =
      let sock' = stop_collecting n sock in
      elim (Bool-cases (sock'.o_bytes == 0)) [
        | inl e ↦ rw e refl
        | inr e ↦ rw e (submit-final sock')
      ]

  -- Reading `sent` after the part `line` of a line ends with the whole of it in the buffer.
  abbrev pub Arrives : List ℕ → List ℕ → Type 0
  Arrives line sent =
      (fuel : ℕ) (sock : Sock)
      → length sent < fuel
      → after fuel sock (read_line line (sent ++ (end_of_data ++ rest)))
        ≡ some (finish v blank 3 fd (collect (line ++ (sent ++ (cr ∷ lf ∷ []))) sock) s, rest)

  pub Arrives-append :
      (line : List ℕ) (c : ℕ) (sent : List ℕ)
      → c ≢ 0
      → (c == lf && ends_cr line) ≡ false
      → Arrives (line ++ c ∷ []) sent
      → Arrives line (c ∷ sent)
  Arrives-append line c sent h k arrives fuel sock enough =
      ap (after fuel sock) (read_line-append line c (sent ++ (end_of_data ++ rest)) h k)
      ∙ arrives fuel sock (omega arith)
      ∙ ap (λ l. some (finish v blank 3 fd (collect l sock) s, rest))
          (append_assoc line (c ∷ []) (sent ++ (cr ∷ lf ∷ [])))

  parse_data-IsData :
      (line : List ℕ) (sock : Sock)
      → IsData line
      → parse_data v blank line fd sock s ≡ done (receiving, collect line sock, s)
  unfolding parse_data
  parse_data-IsData line sock h = rw (h.goes, h.whole, parse_data) refl

  after-IsData :
      (fuel : ℕ) (sock : Sock) (line more : List ℕ)
      → IsData line
      → after fuel sock (some (line, more)) ≡ receive fuel v blank fd more (collect line sock) s
  after-IsData fuel sock line more h = ap (next fuel more) (parse_data-IsData line sock h)

  pub Arrives-line :
      (line sent : List ℕ)
      → ends_cr line ≡ true
      → IsData (line ++ lf ∷ [])
      → Arrives [] sent
      → Arrives line (lf ∷ sent)
  unfolding receive
  Arrives-line line sent h k arrives zero sock enough = absurd (omega arith)
  Arrives-line line sent h k arrives (suc fuel) sock enough =
      ap (after (suc fuel) sock) (read_line-line line (sent ++ (end_of_data ++ rest)) h)
      ∙ after-IsData (suc fuel) sock (line ++ lf ∷ []) (sent ++ (end_of_data ++ rest)) k
      ∙ arrives fuel (collect (line ++ lf ∷ []) sock) (omega arith)
      ∙ ap (λ t. some (finish v blank 3 fd t s, rest))
          (collect-append (line ++ lf ∷ []) (sent ++ (cr ∷ lf ∷ [])) sock
            ∙ ap (λ l. collect l sock) (append_assoc line (lf ∷ []) (sent ++ (cr ∷ lf ∷ []))))

  after-finish :
      (fuel : ℕ) (sock : Sock)
      → after fuel sock (some (dot_line, rest)) ≡ some (finish v blank 3 fd sock s, rest)
  unfolding parse_data
  after-finish fuel sock = next-final fuel rest (finish v blank 3 fd sock s) (finish-final 3 sock)

  pub Arrives-end : (line : List ℕ) → IsData (line ++ (cr ∷ lf ∷ [])) → Arrives line []
  unfolding receive read_line
  Arrives-end line p zero sock enough = absurd (omega arith)
  Arrives-end line p (suc fuel) sock enough =
      ap (after (suc fuel) sock) (
        read_line-append line cr (lf ∷ dot_line ++ rest) (omega arith) refl
        ∙ read_line-line (line ++ cr ∷ []) (dot_line ++ rest) (ends_cr-append line cr))
      ∙ ap (λ l. after (suc fuel) sock (some (l, dot_line ++ rest)))
          (append_assoc line (cr ∷ []) (lf ∷ []))
      ∙ after-IsData (suc fuel) sock (line ++ (cr ∷ lf ∷ [])) (dot_line ++ rest) p
      ∙ after-finish fuel (collect (line ++ (cr ∷ lf ∷ [])) sock)
