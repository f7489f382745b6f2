-- ===== src/Protocol/Speak.antt =====
-- src/server/output.c: how output_speak sends a text; src/modules/module_process.c: how cmd_speak
-- receives it.
pub mod Lines
pub mod Delivered
use speechd.Base.{
  ℕ, zero, suc, ◌==◌, ltb, Bool, true, false, not, ◌&&◌, Option, none, some, List, [], ◌∷◌, ◌++◌,
  drop_last, length, if◌then◌else◌,
}
use speechd.Base.Text.{codes, same_bytes}
use speechd.Types.{MessageType, msg_text, msg_sound_icon, msg_char, msg_key, msg_spell}
use speechd.Server.Modules.{escape_line_dots}
use speechd.Protocol.{lf, dot}

-- The line that ends a text.
abbrev pub last_line : List ℕ
last_line = dot ∷ lf ∷ []

-- The bytes that `output_speak` sends behind the command: the text, with the name of the space for a
-- text that is one space, a line end and the line that ends it.
unfoldable pub speak_data : List ℕ → List ℕ
speak_data buf =
    let text = escape_line_dots buf in
    (if same_bytes text (codes " ") then codes "space" else text) ++ (lf ∷ last_line)

-- The full stop that a line begins with is taken off.
abbrev pub undot : List ℕ → List ℕ
undot [] = []
undot (c ∷ line) = if c == dot then line else c ∷ line

-- The loop of `cmd_speak` over the lines that `module_readline` gives: the text without its last byte,
-- the number of its lines, and the lines behind it; none at the end of the input.
unfoldable pub receive_text : List (List ℕ) → List ℕ → ℕ → Option (List ℕ × ℕ × List (List ℕ))
receive_text [] text nlines = none
receive_text (line ∷ lines) text nlines =
    let more = receive_text lines (text ++ undot line) (suc nlines) in
    if same_bytes line last_line then some (drop_last text, nlines, lines) else more

-- What `cmd_speak` does: the call of `module_speak` or `module_speak_sync`, or a reply.
pub data Spoken : Type 0 where
  speaks : List ℕ → MessageType → Spoken
  err_cant_speak err_more_than_one_line input_over : Spoken

-- `msgtype == SPD_MSGTYPE_KEY || msgtype == SPD_MSGTYPE_CHAR`
abbrev pub names_space : MessageType → Bool
names_space msg_key = true
names_space msg_char = true
names_space _ = false

abbrev pub is_text_type : MessageType → Bool
is_text_type msg_text = true
is_text_type _ = false

-- The tests behind the loop.
unfoldable pub checked_text : MessageType → List ℕ → ℕ → Spoken
checked_text type [] nlines = err_cant_speak
checked_text type (c ∷ text) nlines =
    if not (is_text_type type) && ltb 1 nlines
    then err_more_than_one_line
    else if names_space type && same_bytes (c ∷ text) (codes "space")
    then speaks (codes " ") type
    else speaks (c ∷ text) type

abbrev pub spoken_of : MessageType → Option (List ℕ × ℕ × List (List ℕ)) → Spoken × List (List ℕ)
spoken_of type none = (input_over, [])
spoken_of type (some (text, nlines, rest)) = (checked_text type text nlines, rest)

-- `cmd_speak`, and the lines that it leaves.
unfoldable pub cmd_speak : MessageType → List (List ℕ) → Spoken × List (List ℕ)
cmd_speak type lines = spoken_of type (receive_text lines [] 0)
