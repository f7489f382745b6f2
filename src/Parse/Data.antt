-- ===== src/Parse/Data.antt =====
-- src/server/parse.c: the data mode of `parse`, in which a client sends the text of a message, and
-- `serve` of src/server/server.c, which reads one line. A line is the list of its bytes.
pub mod Rejected
pub mod Lines
pub mod Wire
pub mod Escaped
pub mod Delivery
use speechd.Base.{
  ℕ, zero, suc, ◌+◌, ◌-◌, ◌==◌, ltb, leb, Bool, true, false, not, ◌&&◌, ◌||◌, Option, none, some,
  List, [], ◌∷◌, ◌++◌, length, take, last?, if◌then◌else◌,
}
use speechd.Base.Int.{ℤ, pos}
use speechd.Base.Text.{same_bytes, has_prefix}
use speechd.Types.{msg_text}
use speechd.Message.{Message}
use speechd.Server.{State, Run, done, fault, null_pointer, ◌>>=◌}
use speechd.Speaking.Enqueue.{queue_message}
use speechd.Parse.Dots.{cr, lf, dot, deescape_dot}

-- `TSpeechDSock`
pub record Sock : Type 0 where
  pub awaiting_data : Bool
  pub inside_block : ℕ
  pub o_bytes : ℕ
  pub o_buf : Option (List ℕ)

-- The replies of the data mode. "999 DATA" is not sent.
pub data Reply : Type 0 where
  ok_message_queued : ℤ → Reply
  ok_msg_canceled err_invalid_encoding err_internal receiving : Reply

-- The argument for `g_utf8_validate`: a string without its NUL, and how many bytes to look at.
abbrev pub Validator : Type 0
Validator = List ℕ → ℕ → Bool

-- `server_data_on`
pub server_data_on : Sock → Sock
server_data_on sock = record sock { awaiting_data = true; o_buf = some [] }

-- `server_data_off`
pub server_data_off : Sock → Sock
server_data_off sock = record sock { o_bytes = 0; o_buf = none }

-- ".\r\n" and "\r\n.\r\n".
abbrev pub dot_line : List ℕ
dot_line = dot ∷ cr ∷ lf ∷ []

abbrev pub end_of_data : List ℕ
end_of_data = cr ∷ lf ∷ dot_line

-- `strstr`, as an index.
abbrev pub strstr : List ℕ → List ℕ → Option ℕ
strstr [] sub = if has_prefix sub [] then some 0 else none
strstr (c ∷ buf) sub =
    let later = strstr buf sub in
    if has_prefix sub (c ∷ buf) then some 0 else elim later [ none ↦ none | some i ↦ some (suc i) ]

-- The message was ended by a line of its own.
abbrev pub is_end : List ℕ → Bool
is_end line = (leb 5 (length line) && same_bytes line end_of_data) || same_bytes line dot_line

-- "Command in data caught": where the end stands in this line.
abbrev pub caught : List ℕ → Option ℕ
caught line = if leb 5 (length line) then strstr line end_of_data else none

-- `o_bytes` counts on, and the bytes are added to the buffer.
abbrev pub collect : List ℕ → Sock → Sock
collect bytes sock = record sock {
  o_bytes = sock.o_bytes + length bytes;
  o_buf = elim sock.o_buf [ none ↦ none | some buf ↦ some (buf ++ bytes) ];
}

-- The line end before the full stop is not counted; `bytes` is the length of the last line.
abbrev pub stop_collecting : ℕ → Sock → Sock
stop_collecting bytes sock = record sock {
  awaiting_data = false;
  o_bytes = if bytes == 3 && ltb 2 sock.o_bytes then sock.o_bytes - 2 else sock.o_bytes;
}

abbrev is_zero : ℤ → Bool
is_zero (pos zero) = true
is_zero _ = false

-- The element that is queued; `blank` is what `g_malloc` returns.
abbrev pub allocate : Message → List ℕ → ℕ → State → Message
allocate blank buf n s = record blank { addr = s.next_addr; buf = deescape_dot buf n; bytes = n }

-- The reply to the message.
unfoldable pub answer : Sock → ℤ × State → Run (Reply × Sock × State)
answer sock (id, s) =
    if is_zero id
    then done (err_internal, sock, s)
    else done (ok_message_queued id, server_data_off sock, s)

-- From the check of the encoding on.
pub submit : Validator → Message → ℕ → Sock → State → Run (Reply × Sock × State)
unfolding answer
submit utf8_validate blank fd sock s = elim sock.o_buf [
  | none ↦ fault null_pointer
  | some buf ↦
      if utf8_validate buf sock.o_bytes
      then queue_message (allocate blank buf sock.o_bytes s) (pos fd) msg_text sock.inside_block
          (record s { next_addr = suc s.next_addr })
        >>= answer sock
      else done (err_invalid_encoding, sock, s)
]

-- The label `enddata`.
pub finish : Validator → Message → ℕ → ℕ → Sock → State → Run (Reply × Sock × State)
unfolding submit
finish utf8_validate blank bytes fd sock s =
    let sock' = stop_collecting bytes sock in
    if sock'.o_bytes == 0
    then done (ok_msg_canceled, sock', s)
    else submit utf8_validate blank fd sock' s

-- `parse`, for a client that is sending data.
pub parse_data : Validator → Message → List ℕ → ℕ → Sock → State → Run (Reply × Sock × State)
unfolding finish
parse_data utf8_validate blank line fd sock s =
    if is_end line then finish utf8_validate blank (length line) fd sock s else elim (caught line) [
      | none ↦ done (receiving, collect line sock, s)
      | some i ↦ finish utf8_validate blank (length line) fd (collect (take i line) sock) s
    ]

-- The loop of `serve` that reads bytes up to a line end; a NUL is replaced. The results are the line
-- and what the client has sent behind it, or none if it hangs up first.
pub read_line : List ℕ → List ℕ → Option (List ℕ × List ℕ)
read_line line [] = none
read_line line (c ∷ sent) =
    let next = read_line (line ++ ((if c == 0 then b'?' else c) ∷ [])) sent in
    if c == lf && elim (last? line) [ none ↦ false | some b ↦ b == cr ]
    then some (line ++ (c ∷ []), sent)
    else next

-- `serve`, called again and again while the client sends data and for the end of it. One round
-- takes a byte at least, so the number of the bytes is enough fuel.
pub receive :
    ℕ
    → Validator
    → Message
    → ℕ
    → List ℕ
    → Sock
    → State
    → Option (Run (Reply × Sock × State) × List ℕ)
unfolding read_line parse_data
receive zero utf8_validate blank fd sent sock s = none
receive (suc fuel) utf8_validate blank fd sent sock s = elim (read_line [] sent) [
  | none ↦ none
  | some (line, rest) ↦ elim (parse_data utf8_validate blank line fd sock s) [
    | done (receiving, sock', t) ↦ receive fuel utf8_validate blank fd rest sock' t
    | r ↦ some (r, rest)
  ]
]
