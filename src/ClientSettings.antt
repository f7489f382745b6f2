-- ===== src/ClientSettings.antt =====
-- src/server/set.c: how clients change their settings. The result of a function that sets is 0, or 1
-- for a failure.
pub mod Loop
pub mod Ranges
pub mod Notified
use Prim.Native.Char.{code}
use Prim.Native.String.{String}
use speechd.Base.{
  ℕ, zero, suc, ◌+◌, ◌==◌, ltb, Bool, true, false, not, ◌&&◌, Option, none, some, List, [], ◌∷◌,
  if◌then◌else◌, str_eq,
}
use speechd.Base.Int.{ℤ, pos, negsuc}
use speechd.Types.{
  Punctuation, CapitalLetters, Spelling, VoiceType, male1, male2, male3, female1, female2, female3,
  child_male, child_female, DataMode, Priority, unspecified,
}
use speechd.Message.{MsgSettings, Settings}
use speechd.Server.{State}
use speechd.Server.Clients.{
  get_client_uid_by_fd, get_client_settings_by_fd, get_client_settings_by_uid, write_settings,
}

-- The body that the functions for a uid share: the settings are looked up and written.
unfoldable pub set_uid : (Settings → Settings) → ℕ → State → ℕ × State
set_uid f uid s = elim (get_client_settings_by_uid s uid) [
  | none ↦ (1, s)
  | some c ↦ (0, write_settings uid (f c) s)
]

-- `SET_SELF_ALL`, for one client.
unfoldable pub set_self : (ℕ → State → ℕ × State) → ℕ → State → ℕ × State
set_self act fd s =
    if get_client_uid_by_fd s fd == 0 then (1, s) else act (get_client_uid_by_fd s fd) s

-- The loop of `SET_SELF_ALL` over `n` descriptors from `i` on, with the number of failures.
unfoldable pub set_from : (ℕ → State → ℕ × State) → ℕ → ℕ → ℕ → State → ℕ × State
set_from act zero i err s = (err, s)
set_from act (suc n) i err s =
    let uid = get_client_uid_by_fd s i in
    let (e, t) = act uid s in
    let skipped = set_from act n (suc i) err s in
    let acted = set_from act n (suc i) (err + e) t in if uid == 0 then skipped else acted

-- `SET_SELF_ALL`, for all clients.
unfoldable pub set_all : (ℕ → State → ℕ × State) → State → ℕ × State
unfolding set_from
set_all act s = let (err, t) = set_from act s.max_fd 1 0 s in (if ltb 0 err then 1 else 0, t)

abbrev pub in_range : ℤ → Bool
in_range (pos n) = ltb n 101
in_range (negsuc n) = ltb n 100

-- Refused, if the value is out of range.
abbrev checked : ℤ → (ℕ → State → ℕ × State) → ℕ → State → ℕ × State
checked value act uid s = if in_range value then act uid s else (1, s)

abbrev pub with_msg : (MsgSettings → MsgSettings) → Settings → Settings
with_msg f c = record c { msg_settings = f c.msg_settings }

abbrev pub put_rate : ℤ → Settings → Settings
put_rate value = with_msg (λ m. record m { rate = value })

abbrev pub put_pitch : ℤ → Settings → Settings
put_pitch value = with_msg (λ m. record m { pitch = value })

abbrev pub put_pitch_range : ℤ → Settings → Settings
put_pitch_range value = with_msg (λ m. record m { pitch_range = value })

abbrev pub put_volume : ℤ → Settings → Settings
put_volume value = with_msg (λ m. record m { volume = value })

unfoldable pub set_rate_uid : ℤ → ℕ → State → ℕ × State
set_rate_uid value = checked value (set_uid (put_rate value))

unfoldable pub set_pitch_uid : ℤ → ℕ → State → ℕ × State
set_pitch_uid value = checked value (set_uid (put_pitch value))

unfoldable pub set_pitch_range_uid : ℤ → ℕ → State → ℕ × State
set_pitch_range_uid value = checked value (set_uid (put_pitch_range value))

unfoldable pub set_volume_uid : ℤ → ℕ → State → ℕ × State
set_volume_uid value = checked value (set_uid (put_volume value))

-- A priority is one of the five: the test on its number cannot fail.
unfoldable pub set_priority_uid : Priority → ℕ → State → ℕ × State
set_priority_uid p = set_uid (λ c. record c { priority = p })

voice_named : String → Option VoiceType
voice_named voice =
    if str_eq voice "male1"
    then some male1
    else if str_eq voice "male2"
    then some male2
    else if str_eq voice "male3"
    then some male3
    else if str_eq voice "female1"
    then some female1
    else if str_eq voice "female2"
    then some female2
    else if str_eq voice "female3"
    then some female3
    else if str_eq voice "child_male"
    then some child_male
    else if str_eq voice "child_female"
    then some child_female
    else none

-- The name of a synthesis voice is dropped, so that the two do not mix.
pub set_voice_uid : String → ℕ → State → ℕ × State
unfolding voice_named
set_voice_uid voice uid s = elim (get_client_settings_by_uid s uid) [
  | none ↦ (1, s)
  | some c ↦ elim (voice_named voice) [
    | none ↦ (1, s)
    | some v ↦
        (0, write_settings uid (with_msg (λ m. record m { voice_type = v; voice_name = none }) c) s)
  ]
]

unfoldable pub set_punctuation_mode_uid : Punctuation → ℕ → State → ℕ × State
set_punctuation_mode_uid p = set_uid (with_msg (λ m. record m { punctuation_mode = p }))

unfoldable pub set_capital_letter_recognition_uid : CapitalLetters → ℕ → State → ℕ × State
set_capital_letter_recognition_uid r = set_uid (with_msg (λ m. record m { cap_let_recogn = r }))

unfoldable pub set_spelling_uid : Spelling → ℕ → State → ℕ × State
set_spelling_uid p = set_uid (with_msg (λ m. record m { spelling_mode = p }))

unfoldable pub set_pause_context_uid : ℤ → ℕ → State → ℕ × State
set_pause_context_uid n = set_uid (λ c. record c { pause_context = n })

unfoldable pub set_ssml_mode_uid : DataMode → ℕ → State → ℕ × State
set_ssml_mode_uid p = set_uid (λ c. record c { ssml_mode = p })

pub set_symbols_preprocessing_uid : Bool → ℕ → State → ℕ × State
set_symbols_preprocessing_uid b = set_uid (λ c. record c { symbols_preprocessing = b })

-- The name of the voice is dropped, since it belongs to a module.
unfoldable pub set_output_module_uid : String → ℕ → State → ℕ × State
set_output_module_uid name = set_uid λ c. record c {
  output_module = name;
  msg_settings = record (c.msg_settings) { voice_name = none };
}

-- The type of the voice is dropped, so that the two do not mix.
pub set_synthesis_voice_uid : String → ℕ → State → ℕ × State
set_synthesis_voice_uid name =
    set_uid (with_msg (λ m. record m { voice_name = some name; voice_type = unspecified }))

-- `strchr(language, '-')`, and the string once that place was overwritten.
unfoldable pub before_dash : String → Option String
before_dash String.[] = none
before_dash (String.◌∷◌ c str) =
    let rest = before_dash str in
    if code c == b'-'
    then some String.[]
    else elim rest [ none ↦ none | some r ↦ some (String.◌∷◌ c r) ]

-- `language_default_modules`
abbrev pub default_module : List (String × String) → String → Option String
default_module [] language = none
default_module ((l, name) ∷ table) language =
    let later = default_module table language in if str_eq l language then some name else later

-- `set_language_uid`; the string is the caller's, and is given back as it is afterwards.
unfoldable pub set_language_uid : List (String × String) → String → ℕ → State → ℕ × String × State
unfolding before_dash
set_language_uid table language uid s = elim (get_client_settings_by_uid s uid) [
  | none ↦ (1, language, s)
  | some c ↦
      let t = write_settings uid (with_msg (λ m. record m { language = some language }) c) s in
      elim (default_module table language) [
        | some name ↦ (0, language, (set_output_module_uid name uid t).1)
        | none ↦ elim (before_dash language) [
          | none ↦ (0, language, t)
          | some short ↦ elim (default_module table short) [
            | none ↦ (0, short, t)
            | some name ↦ (0, short, (set_output_module_uid name uid t).1)
          ]
        ]
      ]
]

-- `set_language_all`: every call gets the same string.
unfoldable pub set_language_from : List (String × String) → ℕ → ℕ → ℕ → String → State → ℕ × State
unfolding set_language_uid
set_language_from table zero i err language s = (err, s)
set_language_from table (suc n) i err language s =
    let uid = get_client_uid_by_fd s i in
    let (e, language', t) = set_language_uid table language uid s in
    let skipped = set_language_from table n (suc i) err language s in
    let acted = set_language_from table n (suc i) (err + e) language' t in
    if uid == 0 then skipped else acted

unfoldable pub set_language_all : List (String × String) → String → State → ℕ × State
unfolding set_language_from
set_language_all table language s =
    let (err, t) = set_language_from table s.max_fd 1 0 language s in
    (if ltb 0 err then 1 else 0, t)
