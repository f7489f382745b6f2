-- ===== src/Tests/Loop.antt =====
-- src/server/speaking.c: rounds of speak() on a concrete state.
use speechd.Base.{◌≡◌, refl, true, false, some, [], ◌∷◌, ◌==◌, arith}
use speechd.Base.Int.{pos}
use speechd.Base.Text.{codes}
use speechd.Types.{text}
use speechd.Message.{Message}
use speechd.Server.{State, done, fault, null_pointer}
use speechd.Server.Clients.{
  get_client_settings_by_fd, get_client_settings_by_uid, get_client_uid_by_fd,
}
use speechd.Server.Modules.{OutputModule, Outputs}
use speechd.Server.Modules.Chosen.{IsChosen, get_output_module-IsChosen}
use speechd.Speaking.Choose.{message_nto_speak}
use speechd.Speaking.Spoken.{AreKnown}
use speechd.Speaking.Reload.{
  resume, resume_loop, find_resumable, reload_message, requeue_mark, requeue_from, strtol,
}
use speechd.Speaking.Reload.Resumed.{IsResumed, resume-IsResumed}
use speechd.Speaking.Loop.{TextTools, Met, says}
use speechd.Samples.{client, sent, busy}

abbrev espeak : OutputModule
espeak = record { loaded = record { name = "espeak-ng"; audio = false }; working = true }

abbrev broken : OutputModule
broken = record { loaded = record { name = "festival"; audio = false }; working = false }

abbrev two_modules : Outputs
two_modules = record { output_modules = broken ∷ espeak ∷ []; output_module = some "festival" }

get_output_module-IsChosen_example : IsChosen two_modules (sent 1 2 0 text)
get_output_module-IsChosen_example = get_output_module-IsChosen two_modules (sent 1 2 0 text)

-- Texts as they are, each byte a character.
abbrev plain : TextTools
plain = record {
  normalize = λ buf. some buf;
  characters = λ buf. [];
  isspace = λ c. c == 32;
  insert_symbols = λ m missing. m.buf;
}

-- The module reports the end of the message.
abbrev at_end : Met
at_end = record { wake_up_lost = false; activity = says (some (codes "no")); spoken = pos 0 }

-- A message of client 1 was paused, and client 1 may speak again.
abbrev resumed : State
resumed = record busy {
  paused_list = sent 1 1 0 text ∷ [];
  speaking = false;
  resume_requested = true;
}

known_1 : AreKnown resumed resumed.paused_list
unfolding get_client_settings_by_uid
known_1 = ((λ e. ground arith), tt)

resume-IsResumed_example :
    (t : State) × (resume resumed ≡ done t) × IsResumed resumed t × (t.resume_requested ≡ false)
resume-IsResumed_example = resume-IsResumed resumed known_1

-- The settings of client 1 are gone: its paused message is taken out of the list, and read through a
-- null pointer if a mark was reached in it.
abbrev marked : Message
marked = record m { settings = record (m.settings) { index_mark = some (codes "__spd_0") } }
  where
    m : Message
    m = sent 1 1 0 text

abbrev orphaned : State
orphaned = record busy {
  paused_list = marked ∷ [];
  fd_settings = (2, client 2 6 text) ∷ [];
  fd_uid = (6, 2) ∷ [];
}

resume_crashes : resume orphaned ≡ fault null_pointer
unfolding resume get_client_settings_by_uid get_client_settings_by_fd get_client_uid_by_fd
    resume_loop find_resumable message_nto_speak reload_message requeue_mark requeue_from strtol
resume_crashes = refl
