-- ===== src/Parse/Set.antt =====
-- src/server/parse.c: the branches of parse_set whose parameter is a number, a name from a list, or on
-- and off.
pub mod Kept
pub mod Refused
use speechd.Base.{
  ◌⊎◌, inl, inr, ℕ, zero, suc, ◌==◌, ltb, Bool, true, false, not, Option, none, some, List, [], ◌∷◌,
  if◌then◌else◌,
}
use speechd.Base.Int.{ℤ, pos, negsuc}
use speechd.Base.Text.{codes, same_bytes}
use speechd.Types.{
  Priority, important, message, text, notification, progress, Punctuation, punct_all, punct_most,
  punct_some, punct_none, CapitalLetters, cap_none, cap_spell, cap_icon, spell_on, spell_off,
  data_text, data_ssml,
}
use speechd.Server.{State}
use speechd.ClientSettings.{
  set_self, set_all, set_rate_uid, set_pitch_uid, set_pitch_range_uid, set_volume_uid,
  set_priority_uid, set_punctuation_mode_uid, set_capital_letter_recognition_uid,
  set_pause_context_uid, set_spelling_uid, set_ssml_mode_uid,
}
use speechd.Parse.Data.{Sock}
use speechd.Parse.Param.{get_param, isanum, atoi}

-- The second word behind SET, as far as it is modelled.
pub data Param : Type 0 where
  priority rate pitch pitch_range volume punctuation cap_let_recogn pause_context spelling
        ssml_mode :
      Param

pub data SetReply : Type 0 where
  ok_set err_couldnt_set err_too_low err_too_high : Param → SetReply
  err_missing_parameter err_parameter_invalid err_not_a_number err_unknown_priority : SetReply
  err_parameter_not_on_off err_not_allowed_inside_block : SetReply

-- `who`, with the `uid` of the command.
pub data Who : Type 0 where
  self all : Who
  client : ℤ → Who

unfoldable pub read_who : (List ℕ → List ℕ) → List ℕ → SetReply ⊎ Who
read_who strdown line = elim (get_param strdown line 1) [
  | none ↦ inl err_missing_parameter
  | some who ↦
      if same_bytes who (codes "self")
      then inr self
      else if same_bytes who (codes "all")
      then inr all
      else if isanum who
      then inr (client (atoi who))
      else inl err_parameter_invalid
]

-- `GET_PARAM_INT`
unfoldable pub read_int : List ℕ → SetReply ⊎ ℤ
read_int line = elim (get_param (λ param. param) line 3) [
  | none ↦ inl err_missing_parameter
  | some param ↦ if isanum param then inr (atoi param) else inl err_not_a_number
]

-- The value that a list of names gives to a word, or the answer for a word that is not in the list.
abbrev pub named : {A : Type 0} → List (List ℕ × A) → SetReply → List ℕ → SetReply ⊎ A
named [] unknown word = inl unknown
named ((name, a) ∷ names) unknown word =
    let later = named names unknown word in if same_bytes word name then inr a else later

-- `GET_PARAM_STR` and the tests of the word.
unfoldable pub read_named :
    {A : Type 0} → (List ℕ → List ℕ) → List ℕ → List (List ℕ × A) → SetReply → SetReply ⊎ A
read_named strdown line names unknown = elim (get_param strdown line 3) [
  | none ↦ inl err_missing_parameter
  | some word ↦ named names unknown word
]

abbrev pub priority_names : List (List ℕ × Priority)
priority_names =
    (codes "important", important)
    ∷ (codes "message", message)
    ∷ (codes "text", text)
    ∷ (codes "notification", notification)
    ∷ (codes "progress", progress)
    ∷ []

abbrev pub punctuation_names : List (List ℕ × Punctuation)
punctuation_names =
    (codes "all", punct_all)
    ∷ (codes "most", punct_most)
    ∷ (codes "some", punct_some)
    ∷ (codes "none", punct_none)
    ∷ []

abbrev pub recognition_names : List (List ℕ × CapitalLetters)
recognition_names =
    (codes "none", cap_none) ∷ (codes "spell", cap_spell) ∷ (codes "icon", cap_icon) ∷ []

abbrev pub on_off : List (List ℕ × Bool)
on_off = (codes "on", true) ∷ (codes "off", false) ∷ []

-- `SSIP_SET_COMMAND`. No client has a number below 0.
unfoldable pub set_command : Who → (ℕ → State → ℕ × State) → ℕ → State → ℕ × State
set_command self act fd s = set_self act fd s
set_command all act fd s = set_all act s
set_command (client (pos uid)) act fd s = act uid s
set_command (client (negsuc n)) act fd s = (1, s)

-- `if (ret)`
abbrev pub set_answer : Param → ℕ × State → SetReply × State
set_answer p (zero, s) = (ok_set p, s)
set_answer p (suc n, s) = (err_couldnt_set p, s)

-- With the parameter, if it could be read.
unfoldable pub set_read :
    {A : Type 0}
    → Param
    → SetReply ⊎ A
    → (A → ℕ → State → ℕ × State)
    → Who
    → ℕ
    → State
    → SetReply × State
set_read p (inl refused) act who fd s = (refused, s)
set_read p (inr a) act who fd s = set_answer p (set_command who (act a) fd s)

-- `value < -100`
abbrev pub is_below : ℤ → Bool
is_below (pos n) = false
is_below (negsuc n) = ltb 99 n

-- `value > +100`
abbrev pub is_above : ℤ → Bool
is_above (pos n) = ltb 100 n
is_above (negsuc n) = false

-- The tests of the range before a number is set.
abbrev pub ranged : Param → SetReply ⊎ ℤ → SetReply ⊎ ℤ
ranged p (inl refused) = inl refused
ranged p (inr value) =
    if is_below value
    then inl (err_too_low p)
    else if is_above value
    then inl (err_too_high p)
    else inr value

-- The branch for the priority, which a client sets for itself alone.
unfoldable pub parse_priority : (List ℕ → List ℕ) → List ℕ → Who → ℕ → State → SetReply × State
parse_priority strdown line self fd s =
    set_read priority (read_named strdown line priority_names err_unknown_priority) set_priority_uid
      self fd s
parse_priority strdown line who fd s = (err_couldnt_set priority, s)

-- `NOT_ALLOWED_INSIDE_BLOCK`
abbrev pub outside_block : Sock → SetReply × State → State → SetReply × State
outside_block sock r s = if sock.inside_block == 0 then r else (err_not_allowed_inside_block, s)

-- The branches of `parse_set`.
unfoldable pub set_param :
    (List ℕ → List ℕ) → List ℕ → Sock → Param → Who → ℕ → State → SetReply × State
set_param strdown line sock priority who fd s =
    outside_block sock (parse_priority strdown line who fd s) s
set_param strdown line sock rate who fd s =
    set_read rate (ranged rate (read_int line)) set_rate_uid who fd s
set_param strdown line sock pitch who fd s =
    set_read pitch (ranged pitch (read_int line)) set_pitch_uid who fd s
set_param strdown line sock pitch_range who fd s =
    set_read pitch_range (ranged pitch_range (read_int line)) set_pitch_range_uid who fd s
set_param strdown line sock volume who fd s =
    set_read volume (ranged volume (read_int line)) set_volume_uid who fd s
set_param strdown line sock punctuation who fd s =
    set_read punctuation (read_named strdown line punctuation_names err_parameter_invalid)
      set_punctuation_mode_uid who fd s
set_param strdown line sock cap_let_recogn who fd s =
    set_read cap_let_recogn (read_named strdown line recognition_names err_parameter_invalid)
      set_capital_letter_recognition_uid who fd s
set_param strdown line sock pause_context who fd s =
    set_read pause_context (read_int line) set_pause_context_uid who fd s
set_param strdown line sock spelling who fd s =
    outside_block sock
      (set_read spelling (read_named strdown line on_off err_parameter_not_on_off)
        (λ on. set_spelling_uid (if on then spell_on else spell_off)) who fd s)
      s
set_param strdown line sock ssml_mode who fd s =
    set_read ssml_mode (read_named strdown line on_off err_parameter_not_on_off)
      (λ on. set_ssml_mode_uid (if on then data_ssml else data_text)) who fd s

abbrev set_for :
    (List ℕ → List ℕ) → List ℕ → Sock → Param → SetReply ⊎ Who → ℕ → State → SetReply × State
set_for strdown line sock p (inl refused) fd s = (refused, s)
set_for strdown line sock p (inr who) fd s = set_param strdown line sock p who fd s

-- `parse_set`, for a line whose second word behind SET is that of the parameter.
unfoldable pub parse_set_param :
    (List ℕ → List ℕ) → List ℕ → Sock → Param → ℕ → State → SetReply × State
parse_set_param strdown line sock p fd s = set_for strdown line sock p (read_who strdown line) fd s
