-- ===== src/Conv.antt =====
-- src/common/fdsetconv.c: the names of the settings' values. A result that the code casts from -1
-- is `none`, but for voices, where -1 is the value `unspecified`. A C string that is NULL is `none`.
pub mod RoundTrip
use speechd.Base.{String, str_eq, Option, none, some, if◌then◌else◌}
use speechd.Types.{
  Punctuation, punct_none, punct_all, punct_some, punct_most, CapitalLetters, cap_none, cap_spell,
  cap_icon, Spelling, spell_off, spell_on, VoiceType, male1, male2, male3, female1, female2,
  female3, child_male, child_female, unspecified, Priority, important, message, text, notification,
  progress,
}

-- `EVoice2str`
pub voice_to_str : VoiceType → Option String
voice_to_str male1 = some "male1"
voice_to_str male2 = some "male2"
voice_to_str male3 = some "male3"
voice_to_str female1 = some "female1"
voice_to_str female2 = some "female2"
voice_to_str female3 = some "female3"
voice_to_str child_male = some "child_male"
voice_to_str child_female = some "child_female"
voice_to_str unspecified = none

-- `str2EVoice`
unfoldable pub str_to_voice : String → VoiceType
str_to_voice s =
    if str_eq s "male1"
    then male1
    else if str_eq s "male2"
    then male2
    else if str_eq s "male3"
    then male3
    else if str_eq s "female1"
    then female1
    else if str_eq s "female2"
    then female2
    else if str_eq s "female3"
    then female3
    else if str_eq s "child_male"
    then child_male
    else if str_eq s "child_female"
    then child_female
    else unspecified

-- `EPunctMode2str`
pub punct_to_str : Punctuation → String
punct_to_str punct_none = "none"
punct_to_str punct_all = "all"
punct_to_str punct_some = "some"
punct_to_str punct_most = "most"

-- `str2EPunctMode`
unfoldable pub str_to_punct : String → Option Punctuation
str_to_punct s =
    if str_eq s "none"
    then some punct_none
    else if str_eq s "all"
    then some punct_all
    else if str_eq s "some"
    then some punct_some
    else if str_eq s "most"
    then some punct_most
    else none

-- `ESpellMode2str`
pub spell_to_str : Spelling → String
spell_to_str spell_on = "on"
spell_to_str spell_off = "off"

-- `str2ESpellMode`
unfoldable pub str_to_spell : String → Option Spelling
str_to_spell s =
    if str_eq s "on" then some spell_on else if str_eq s "off" then some spell_off else none

-- `ECapLetRecogn2str`
pub cap_let_to_str : CapitalLetters → String
cap_let_to_str cap_none = "none"
cap_let_to_str cap_spell = "spell"
cap_let_to_str cap_icon = "icon"

-- `str2ECapLetRecogn`
unfoldable pub str_to_cap_let : String → Option CapitalLetters
str_to_cap_let s =
    if str_eq s "none"
    then some cap_none
    else if str_eq s "spell"
    then some cap_spell
    else if str_eq s "icon"
    then some cap_icon
    else none

-- `str2intpriority`
unfoldable pub str_to_priority : String → Option Priority
str_to_priority s =
    if str_eq s "important"
    then some important
    else if str_eq s "message"
    then some message
    else if str_eq s "text"
    then some text
    else if str_eq s "notification"
    then some notification
    else if str_eq s "progress"
    then some progress
    else none
