-- ===== src/Speaking/Spoken.antt =====
-- src/server/speaking.c: what holds of the speaking thread's variables.
use mathlib.Core.Path.{subst}
use speechd.Base.{◌≡◌, ◌≢◌, sym, Bool, true, false, Option, none, some, List, All}
use speechd.Message.{Message}
use speechd.Server.{State}
use speechd.Server.Clients.{get_client_settings_by_uid}

abbrev pub is_some {ℓ} : {A : Type ℓ} → Option A → Bool
is_some none = false
is_some (some a) = true

-- While something is spoken, it is known what and by which module; and where there is a current message,
-- the priority of the last message that was chosen is known.
pub record IsSpoken (s : State) : Type 0 where
  pub chosen : is_some s.current_message ≡ true → is_some s.highest_priority ≡ true
  pub current : s.speaking ≡ true → is_some s.current_message ≡ true
  pub by_module : s.speaking ≡ true → is_some s.speaking_module ≡ true

-- The clients of messages have settings.
abbrev pub AreKnown : State → List Message → Type 0
AreKnown s queue = All (λ m. get_client_settings_by_uid s m.settings.uid ≢ none) queue

abbrev pub IsKnown : State → Option Message → Type 0
IsKnown s none = Unit
IsKnown s (some m) = get_client_settings_by_uid s m.settings.uid ≢ none

-- So it is for the messages that the speaking thread holds outside of the queues.
pub record HasClients (s : State) : Type 0 where
  pub paused : AreKnown s s.paused_list
  pub current : IsKnown s s.current_message

pub AreKnown-tables :
    (s t : State) (queue : List Message)
    → t.fd_settings ≡ s.fd_settings
    → AreKnown s queue
    → AreKnown t queue
unfolding get_client_settings_by_uid
AreKnown-tables s t queue e h = subst (λ b. AreKnown (record t { fd_settings = b }) queue) (sym e) h

pub IsKnown-tables :
    (s t : State) (o : Option Message) → t.fd_settings ≡ s.fd_settings → IsKnown s o → IsKnown t o
unfolding get_client_settings_by_uid
IsKnown-tables s t o e h = subst (λ b. IsKnown (record t { fd_settings = b }) o) (sym e) h
