-- ===== src/Parse/Data/Delivery.antt =====
-- What becomes of a text on its way from the client library to the queues.
use speechd.Base.{
  ℕ, ◌≡◌, ◌≢◌, refl, sym, ap, ◌∙◌, false, none, some, List, [], ◌∷◌, ◌++◌, length, arith,
  length-append, ne→==,
}
use speechd.Message.{Message}
use speechd.Server.{State}
use speechd.Parse.Dots.{cr, lf, escape_dot, deescape_dot, deescape_loop}
use speechd.Parse.Dots.RoundTrip.{deescape_dot-escape_dot}
use speechd.Parse.Data.{Validator, Sock, stop_collecting, finish, submit, collect}

length-ne_zero : (line : List ℕ) → line ≢ [] → length line ≢ 0
length-ne_zero [] h = absurd (h refl)
length-ne_zero (a ∷ line) h = omega arith

pub escape_dot-ne_nil : (text : List ℕ) → text ≢ [] → escape_dot text ≢ []
unfolding deescape_dot deescape_loop
escape_dot-ne_nil text h e =
    h (
      sym (deescape_dot-escape_dot text)
      ∙ ap (λ l. deescape_dot (l ++ (cr ∷ lf ∷ [])) (length l)) e)

pub finish-submit :
    (v : Validator) (blank : Message) (n fd : ℕ) (sock : Sock) (s : State)
    → (stop_collecting n sock).o_bytes ≢ 0
    → finish v blank n fd sock s ≡ submit v blank fd (stop_collecting n sock) s
unfolding finish
finish-submit v blank n fd sock s h = rw (ne→== (stop_collecting n sock).o_bytes 0 h, finish) refl

-- The socket with `line` as the text to be queued.
abbrev pub holding : List ℕ → Sock → Sock
holding line sock = record sock {
  awaiting_data = false;
  o_bytes = length line;
  o_buf = some (line ++ (cr ∷ lf ∷ []));
}

-- The line end that the client sends before the full stop is counted off again.
stop_collecting-collect :
    (line : List ℕ) (sock : Sock)
    → sock.o_buf ≡ some []
    → sock.o_bytes ≡ 0
    → line ≢ []
    → stop_collecting 3 (collect (line ++ (cr ∷ lf ∷ [])) sock) ≡ holding line sock
stop_collecting-collect [] sock e f h = absurd (h refl)
stop_collecting-collect (a ∷ line) sock e f h = ground (arith, length-append line (cr ∷ lf ∷ []))

pub finish-collect :
    (v : Validator) (blank : Message) (fd : ℕ) (line : List ℕ) (sock : Sock) (s : State)
    → sock.o_buf ≡ some []
    → sock.o_bytes ≡ 0
    → line ≢ []
    → finish v blank 3 fd (collect (line ++ (cr ∷ lf ∷ [])) sock) s
      ≡ submit v blank fd (holding line sock) s
finish-collect v blank fd line sock s e f h =
    let same = stop_collecting-collect line sock e f h in
    finish-submit v blank 3 fd (collect (line ++ (cr ∷ lf ∷ [])) sock) s
      (λ z. length-ne_zero line h (ap (λ t. t.o_bytes) (sym same) ∙ z))
    ∙ ap (λ t. submit v blank fd t s) same

-- The message that the server makes of a text.
abbrev pub received : Message → List ℕ → State → Message
received blank text s = record blank {
  addr = s.next_addr;
  buf = text;
  bytes = length (escape_dot text);
}

-- The socket after the message.
abbrev pub ready : Sock → Sock
ready sock = record sock { awaiting_data = false; o_bytes = 0; o_buf = none }
