-- ===== src/Types.antt =====
-- include/speechd_types.h: the enumerations that the protocol, the settings and the queues share.
use speechd.Base.{ℕ, ◌≡◌, Bool, arith, ◌==◌}

-- `SPDPunctuation`
pub data Punctuation : Type 0 where
  punct_none punct_all punct_some punct_most : Punctuation

-- `SPDCapitalLetters`
pub data CapitalLetters : Type 0 where
  cap_none cap_spell cap_icon : CapitalLetters

-- `SPDSpelling`
pub data Spelling : Type 0 where
  spell_off spell_on : Spelling

-- `SPDVoiceType`; `unspecified` is the value -1.
pub data VoiceType : Type 0 where
  male1 male2 male3 female1 female2 female3 child_male child_female unspecified : VoiceType

-- `SPDDataMode`
pub data DataMode : Type 0 where
  data_text data_ssml : DataMode

-- `SPDPriority`, the most urgent first.
pub data Priority : Type 0 where
  important message text notification progress : Priority

-- The number of a priority, by which the code compares two of them.
abbrev pub rank : Priority → ℕ
rank important = 1
rank message = 2
rank text = 3
rank notification = 4
rank progress = 5

-- `a == b` on priorities.
abbrev pub same_priority : Priority → Priority → Bool
same_priority a b = rank a == rank b

-- `SPDMessageType`
pub data MessageType : Type 0 where
  msg_text msg_sound_icon msg_char msg_key msg_spell : MessageType

pub same_priority-eq : (a b : Priority) → same_priority a b ≡ Bool.true → a ≡ b
same_priority-eq a b h = ground arith

pub Priority-discrete : Discrete Priority
Priority-discrete = hlevel
