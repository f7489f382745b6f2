-- ===== src/Parse/Data/Rejected.antt =====
-- What a text with a bad encoding leaves behind. `server_data_off`, which sets the counter of bytes
-- back, is not called for it, and `server_data_on` does not set it back either.
use speechd.Base.{
  ℕ, suc, ◌+◌, ◌≡◌, ◌≢◌, ◌<◌, refl, sym, ap, ◌∙◌, true, false, some, List, [], ◌∷◌, ◌++◌, length,
  arith, length-append,
}
use speechd.Message.{Message}
use speechd.Server.{State, done}
use speechd.Parse.Dots.{cr, lf, escape_dot}
use speechd.Parse.Data.{
  Validator, Sock, err_invalid_encoding, submit, stop_collecting, receive, collect, end_of_data,
  server_data_on,
}
use speechd.Parse.Data.Escaped.{no_nul, Arrives-escape_dot}
use speechd.Parse.Data.Delivery.{finish-submit, holding, finish-collect, escape_dot-ne_nil}

-- The socket with `line` in its buffer, and a counter that started from `k`.
abbrev pub leftover : ℕ → List ℕ → Sock → Sock
leftover k line sock = record sock {
  awaiting_data = false;
  o_bytes = k + length line;
  o_buf = some (line ++ (cr ∷ lf ∷ []));
}

stop_collecting-leftover :
    (line : List ℕ) (sock : Sock)
    → 2 < sock.o_bytes
    → stop_collecting 3 (collect (line ++ (cr ∷ lf ∷ [])) (server_data_on sock))
      ≡ leftover sock.o_bytes line sock
unfolding server_data_on
stop_collecting-leftover line sock h = ground (arith, length-append line (cr ∷ lf ∷ []))

leftover-ne_zero : (k : ℕ) (line : List ℕ) → 2 < k → k + length line ≢ 0
leftover-ne_zero k line h e = omega arith

beyond : (k : ℕ) (line : List ℕ) → 2 < k → length (line ++ (cr ∷ lf ∷ [])) < k + length line
beyond k line h = omega (arith, length-append line (cr ∷ lf ∷ []))

submit-leftover :
    (v : Validator) (blank : Message) (fd k : ℕ) (line : List ℕ) (sock : Sock) (s : State)
    → v (line ++ (cr ∷ lf ∷ [])) (k + length line) ≡ false
    → submit v blank fd (leftover k line sock) s
      ≡ done (err_invalid_encoding, leftover k line sock, s)
unfolding submit
submit-leftover v blank fd k line sock s bad = rw (bad, submit) refl

-- When the counter was left above 2 by an earlier message, the next message is rejected for its
-- encoding, whatever its text is, nothing is queued, and the counter grows: so is every later one.
-- `g_utf8_validate` says no to a string that ends before the count that it is given.
pub receive_rejects :
    (v : Validator) (blank : Message) (fd fuel : ℕ) (text rest : List ℕ) (sock : Sock) (s : State)
    → ((buf : List ℕ) (n : ℕ) → length buf < n → v buf n ≡ false)
    → no_nul text ≡ true
    → length (escape_dot text) < fuel
    → 2 < sock.o_bytes
    → receive
        (suc fuel)
        v
        blank
        fd
        (escape_dot text ++ (end_of_data ++ rest))
        (server_data_on sock)
        s
      ≡ some (done (err_invalid_encoding, leftover sock.o_bytes (escape_dot text) sock, s), rest)
unfolding receive
receive_rejects v blank fd fuel text rest sock s stops_at_nul clear enough left =
    let line = escape_dot text in
    let start = collect (line ++ (cr ∷ lf ∷ [])) (server_data_on sock) in
    let same = stop_collecting-leftover line sock left in
    Arrives-escape_dot v blank fd s rest text clear fuel (server_data_on sock) enough
    ∙ ap (λ r. some (r, rest))
        (finish-submit v blank 3 fd start s
            (λ z. leftover-ne_zero sock.o_bytes line left (ap (λ t. t.o_bytes) (sym same) ∙ z))
          ∙ ap (λ t. submit v blank fd t s) same
          ∙ submit-leftover v blank fd sock.o_bytes line sock s (
              stops_at_nul (line ++ (cr ∷ lf ∷ [])) (sock.o_bytes + length line)
                (beyond sock.o_bytes line left)))

submit-holding_bad :
    (v : Validator) (blank : Message) (fd : ℕ) (line : List ℕ) (sock : Sock) (s : State)
    → v (line ++ (cr ∷ lf ∷ [])) (length line) ≡ false
    → submit v blank fd (holding line sock) s ≡ done (err_invalid_encoding, holding line sock, s)
unfolding submit
submit-holding_bad v blank fd line sock s bad = rw (bad, submit) refl

long_filled : (text : List ℕ) → 2 < length (escape_dot text) → text ≢ []
unfolding escape_dot
long_filled [] h e = absurd (omega (arith, h))
long_filled (a ∷ text) h e = ground arith

-- The first rejection: the text is dropped, and the count stays.
receive_bad :
    (v : Validator) (blank : Message) (fd fuel : ℕ) (text rest : List ℕ) (sock : Sock) (s : State)
    → no_nul text ≡ true
    → text ≢ []
    → length (escape_dot text) < fuel
    → sock.o_buf ≡ some []
    → sock.o_bytes ≡ 0
    → v (escape_dot text ++ (cr ∷ lf ∷ [])) (length (escape_dot text)) ≡ false
    → receive (suc fuel) v blank fd (escape_dot text ++ (end_of_data ++ rest)) sock s
      ≡ some (done (err_invalid_encoding, holding (escape_dot text) sock, s), rest)
unfolding receive
receive_bad v blank fd fuel text rest sock s clear filled enough e f bad =
    Arrives-escape_dot v blank fd s rest text clear fuel sock enough
    ∙ ap (λ r. some (r, rest))
        (finish-collect v blank fd (escape_dot text) sock s e f (escape_dot-ne_nil text filled)
          ∙ submit-holding_bad v blank fd (escape_dot text) sock s bad)

-- A text of more than two bytes on the wire that fails the check of its encoding is rejected; and
-- then so is the next text of this connection, whatever it is and whatever is queued meanwhile, if
-- the check refuses a string that ends before the count it is given.
pub receive_rejects_again :
    (v : Validator) (blank : Message) (fd fuel fuel' : ℕ) (text next rest rest' : List ℕ)
    (sock : Sock) (s t : State)
    → ((buf : List ℕ) (n : ℕ) → length buf < n → v buf n ≡ false)
    → no_nul text ≡ true
    → no_nul next ≡ true
    → 2 < length (escape_dot text)
    → length (escape_dot text) < fuel
    → length (escape_dot next) < fuel'
    → sock.o_buf ≡ some []
    → sock.o_bytes ≡ 0
    → v (escape_dot text ++ (cr ∷ lf ∷ [])) (length (escape_dot text)) ≡ false
    → let spoiled = holding (escape_dot text) sock in
      (receive (suc fuel) v blank fd (escape_dot text ++ (end_of_data ++ rest)) sock s
        ≡ some (done (err_invalid_encoding, spoiled, s), rest))
      × (receive
            (suc fuel')
            v
            blank
            fd
            (escape_dot next ++ (end_of_data ++ rest'))
            (server_data_on spoiled)
            t
          ≡ some (
            done (err_invalid_encoding, leftover spoiled.o_bytes (escape_dot next) spoiled, t),
            rest',
          ))
receive_rejects_again v blank fd fuel fuel' text next rest rest' sock s t stops_at_nul clear clear'
      long enough enough' e f bad =
    (
      receive_bad v blank fd fuel text rest sock s clear (long_filled text long) enough e f bad,
      receive_rejects v blank fd fuel' next rest' (holding (escape_dot text) sock) t stops_at_nul
          clear' enough' long,
    )
