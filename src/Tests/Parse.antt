-- ===== src/Tests/Parse.antt =====
-- src/server/parse.c on concrete texts and sockets.
use speechd.Base.{
  not, ◌&&◌, ◌==◌, ◌<◌, false, leb, arith, ℕ, ◌<◌, ◌≡◌, refl, true, false, some, List, [], ◌∷◌,
  ◌++◌, length, arith,
}
use speechd.Types.{text}
use speechd.Server.{done}
use speechd.Parse.Dots.{cr, lf, dot, escape_dot, escape_loop, deescape_dot}
use speechd.Parse.Dots.RoundTrip.{deescape_dot-escape_dot}
use speechd.Parse.Data.{Validator, Sock, err_invalid_encoding, receive, end_of_data, server_data_on}
use speechd.Parse.Data.Rejected.{leftover, receive_rejects_again}
use speechd.Samples.{sent, busy}

-- Two lines, each of which starts with a full stop.
abbrev dots : List ℕ
dots = dot ∷ cr ∷ lf ∷ dot ∷ b'!' ∷ []

abbrev collecting : Sock
collecting = record { awaiting_data = true; inside_block = 0; o_bytes = 0; o_buf = some [] }

deescape_dot-escape_dot_example :
    deescape_dot (escape_dot dots ++ (cr ∷ lf ∷ [])) (length (escape_dot dots)) ≡ dots
deescape_dot-escape_dot_example = deescape_dot-escape_dot dots

-- A check that also refuses a string with the byte 255 at its start.
abbrev not_255 : Validator
not_255 [] n = leb n 0
not_255 (c ∷ buf) n = not (c == 255) && leb n (length (c ∷ buf))

not_255-stops : (buf : List ℕ) (n : ℕ) → length buf < n → not_255 buf n ≡ false
not_255-stops [] n h = ground arith
not_255-stops (c ∷ buf) n h = ground arith

abbrev bad_text : List ℕ
bad_text = 255 ∷ 255 ∷ 255 ∷ []

abbrev spoiled : Sock
spoiled = record {
  awaiting_data = false;
  inside_block = 0;
  o_bytes = 3;
  o_buf = some (bad_text ++ (cr ∷ lf ∷ []));
}

receive_rejects_again_example :
    (receive 9 not_255
        (sent 0 1 0 text)
        5
        (escape_dot bad_text ++ (end_of_data ++ []))
        collecting
        busy
      ≡ some (done (err_invalid_encoding, spoiled, busy), []))
    × (receive 9 not_255
          (sent 0 1 0 text)
          5
          (escape_dot dots ++ (end_of_data ++ []))
          (server_data_on spoiled)
          busy
        ≡ some (done (err_invalid_encoding, leftover 3 (escape_dot dots) spoiled, busy), []))
unfolding escape_dot escape_loop
receive_rejects_again_example =
    receive_rejects_again not_255 (sent 0 1 0 text) 5 8 8 bad_text dots [] [] collecting busy busy
      not_255-stops refl refl (omega arith) (omega arith) (omega arith) refl refl refl
