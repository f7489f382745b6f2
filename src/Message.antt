-- ===== src/Message.antt =====
-- src/server/speechd.h: the settings of a client (`TFDSetElement`, `SPDMsgSettings`) and a message
-- (`TSpeechDMessage`). The strings that name audio devices, the log level, the event source of the
-- connection and the receive time are carried along by the server without being looked at, and are
-- left out. Bytes of text are numbers.
use speechd.Base.{ℕ, ◌/◌, ◌%◌, ◌==◌, Bool, Option, List, String}
use speechd.Base.Int.{ℤ}
use speechd.Types.{
  Punctuation, CapitalLetters, Spelling, VoiceType, DataMode, Priority, MessageType,
}

-- `SPDMsgSettings`
pub record MsgSettings : Type 0 where
  pub rate : ℤ
  pub pitch : ℤ
  pub pitch_range : ℤ
  pub volume : ℤ
  pub punctuation_mode : Punctuation
  pub spelling_mode : Spelling
  pub cap_let_recogn : CapitalLetters
  pub voice_type : VoiceType
  pub voice_name : Option String
  pub language : Option String

-- `TFDSetElement`. The numbers that the server gives out (uid, reparted) start from 0 and only
-- grow; `fd` is none for the -1 of a connection that is gone.
pub record Settings : Type 0 where
  pub uid : ℕ
  pub fd : Option ℕ
  pub active : Bool
  pub paused : ℕ
  pub paused_while_speaking : Bool
  pub type : MessageType
  pub ssml_mode : DataMode
  pub symbols_preprocessing : Bool
  pub priority : Priority
  pub msg_settings : MsgSettings
  pub client_name : String
  pub output_module : String
  pub notification : ℕ
  pub reparted : ℕ
  pub pause_context : ℤ
  pub index_mark : Option (List ℕ)
  pub hist_cur_uid : ℤ
  pub hist_cur_pos : ℤ

-- `TSpeechDMessage`. `addr` is the address of the structure: two pointers to one message are two
-- values with the same address.
pub record Message : Type 0 where
  pub addr : ℕ
  pub id : ℕ
  pub buf : List ℕ
  pub bytes : ℕ
  pub settings : Settings

-- `SPDNotification`: the flags of an event mask.
abbrev pub flag_begin : ℕ
flag_begin = 1

abbrev pub flag_end : ℕ
flag_end = 2

abbrev pub flag_index_marks : ℕ
flag_index_marks = 4

abbrev pub flag_cancel : ℕ
flag_cancel = 8

abbrev pub flag_pause : ℕ
flag_pause = 16

abbrev pub flag_resume : ℕ
flag_resume = 32

-- `mask & flag`, for a flag that is a power of two.
abbrev pub has_flag : ℕ → ℕ → Bool
has_flag mask flag = mask / flag % 2 == 1
