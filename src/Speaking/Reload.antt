-- ===== src/Speaking/Reload.antt =====
-- src/server/speaking.c: reload_message, which puts a message that was paused back into its queue, and
-- the loop of speak() that does so for all that may be spoken again.
pub mod Returns
pub mod Resumed
use speechd.Base.{
  ℕ, zero, suc, ◌+◌, ◌-◌, ◌*◌, ◌==◌, Bool, true, false, not, ◌&&◌, ◌||◌, Option, none, some, List,
  [], ◌∷◌, ◌++◌, length, get_elem?, remove_at, find_index, drop, if◌then◌else◌,
}
use speechd.Base.Int.{ℤ, pos, negsuc, ◌+ℤ◌, sub_ℕ}
use speechd.Types.{msg_text}
use speechd.Message.{Message, Settings}
use speechd.Server.{State, Run, done, fault, null_pointer, ◌>>=◌}
use speechd.Server.Clients.{get_client_settings_by_uid}
use speechd.Speaking.Choose.{message_nto_speak}
use speechd.Speaking.Enqueue.{queue_message}
use speechd.IndexMarks.{find_index_mark, strip_index_marks}
use speechd.Parse.Param.{isdigit, negate}

-- `isspace` in the C locale
abbrev is_blank_char : ℕ → Bool
is_blank_char c = c == 32 || (c == 9 || (c == 10 || (c == 11 || (c == 12 || c == 13))))

-- The digits that a text begins with, behind those of `n`.
abbrev pub leading : ℕ → List ℕ → ℕ
leading n [] = n
leading n (c ∷ text) = let m = leading (n * 10 + (c - 48)) text in if isdigit c then m else n

abbrev pub unsigned : List ℕ → Option ℕ
unsigned [] = none
unsigned (c ∷ text) = if isdigit c then some (leading 0 (c ∷ text)) else none

abbrev signed : List ℕ → Option ℤ
signed [] = none
signed (c ∷ text) =
    if c == 45
    then elim (unsigned text) [ none ↦ none | some n ↦ some (negate n) ]
    else if c == 43
    then elim (unsigned text) [ none ↦ none | some n ↦ some (pos n) ]
    else elim (unsigned (c ∷ text)) [ none ↦ none | some n ↦ some (pos n) ]

-- `strtol` in base 10; none where it leaves its end pointer at the start.
unfoldable pub strtol : List ℕ → Option ℤ
strtol [] = none
strtol (c ∷ text) = let later = strtol text in if is_blank_char c then later else signed (c ∷ text)

-- The position in the text from which it is spoken again; a number below 0 is the beginning.
unfoldable pub resume_position : Message → ℤ → Option (List ℕ)
resume_position m (pos n) = find_index_mark m.buf n
resume_position m (negsuc n) = some m.buf

-- `queue_message` never gives 0 but for a message with this id, which is freed then, if the server
-- does not debug.
abbrev pub outcome : ℤ × State → ℤ × State
outcome (pos zero, s) = (negsuc 0, s)
outcome (_, s) = (pos 0, s)

unfoldable pub requeue : Message → State → Run (ℤ × State)
requeue m s = queue_message m (sub_ℕ 0 m.settings.uid) msg_text 0 s >>= λ r. done (outcome r)

-- With the text from which the message is spoken again, if it was found.
unfoldable pub requeue_text : Option (List ℕ) → Settings → Message → State → Run (ℤ × State)
requeue_text none c m s = done (negsuc 0, s)
requeue_text (some text) c m s =
    let newtext = strip_index_marks text c.ssml_mode in
    requeue (record m { buf = newtext; bytes = length newtext }) s

-- With the number of the mark, if it has one, and the settings of the client, which are not tested.
unfoldable pub requeue_from : Option ℤ → Option Settings → Message → State → Run (ℤ × State)
requeue_from none c m s = done (negsuc 0, s)
requeue_from (some im) none m s = fault null_pointer
requeue_from (some im) (some c) m s = requeue_text (resume_position m (im +ℤ c.pause_context)) c m s

-- With the mark that was last reported for the message.
unfoldable pub requeue_mark : Option (List ℕ) → Message → State → Run (ℤ × State)
requeue_mark none m s = requeue m s
requeue_mark (some mark) m s =
    requeue_from (strtol (drop 6 mark)) (get_client_settings_by_uid s m.settings.uid) m s

-- `reload_message`. A client that has no settings is read through a null pointer.
unfoldable pub reload_message : Message → State → Run (ℤ × State)
reload_message m s = requeue_mark m.settings.index_mark m s

-- `g_list_find_custom` with `message_nto_speak`: the first message in the paused list that may be spoken.
unfoldable pub find_resumable : State → Option ℕ
find_resumable s = find_index (λ m. not (message_nto_speak s m)) s.paused_list

-- `if (current_message == gl->data) current_message = NULL;`
unfoldable pub forget_current : Message → State → State
forget_current m s = elim s.current_message [
  | none ↦ s
  | some x ↦ if x.addr == m.addr then record s { current_message = none } else s
]

-- The loop over the paused list; each round takes a message out of it.
unfoldable pub resume_loop : ℕ → State → Run State
resume_loop zero s = done s
resume_loop (suc fuel) s = elim (find_resumable s) [
  | none ↦ done s
  | some i ↦ elim (get_elem? s.paused_list i) [
    | none ↦ done s
    | some m ↦ reload_message m (record s { paused_list = remove_at i s.paused_list }) >>= λ r.
        resume_loop fuel (forget_current m r.1)
  ]
]

-- The handling of a resume request.
abbrev pub resume_handled : State → State
resume_handled s = record s { resume_requested = false }

unfoldable pub resume : State → Run State
resume s = resume_loop (suc (length s.paused_list)) s >>= λ t. done (resume_handled t)
