-- ===== src/Parse/Set/Refused.antt =====
-- src/server/parse.c: a SET command for one client that is not answered by OK.
use speechd.Base.{
  arith, ◌⊎◌, inl, inr, ℕ, zero, suc, ◌==◌, Option-cases, List, ◌≡◌, ◌≢◌, refl, ap, if_both,
  if◌then◌else◌,
}
use speechd.Base.Int.{ℤ, pos, negsuc}
use speechd.Message.{Settings}
use speechd.Server.{State}
use speechd.Server.Clients.{get_client_uid_by_fd, get_client_settings_by_uid}
use speechd.ClientSettings.{
  in_range, set_uid, set_self, set_rate_uid, set_pitch_uid, set_pitch_range_uid, set_volume_uid,
  set_priority_uid, set_punctuation_mode_uid, set_capital_letter_recognition_uid,
  set_pause_context_uid, set_spelling_uid, set_ssml_mode_uid,
}
use speechd.Parse.Data.{Sock}
use speechd.Parse.Set.{
  Param, priority, rate, pitch, pitch_range, volume, punctuation, cap_let_recogn, pause_context,
  spelling, ssml_mode, SetReply, ok_set, Who, self, all, client, read_who, set_command, set_answer,
  set_read, parse_priority, set_param, set_for, parse_set_param,
}

-- It succeeded, or nothing changed.
abbrev IsWhole : State → ℕ × State → Type 0
IsWhole s r = (r.0 ≡ 0) ⊎ (r.1 ≡ s)

-- For each client and state.
abbrev AreWhole : (ℕ → State → ℕ × State) → Type 0
AreWhole act = (uid : ℕ) (s : State) → IsWhole s (act uid s)

set_uid-AreWhole : (f : Settings → Settings) → AreWhole (set_uid f)
unfolding set_uid
set_uid-AreWhole f uid s = elim (Option-cases (get_client_settings_by_uid s uid)) [
  | inl e ↦ rw (e, set_uid) (inr refl)
  | inr (c, e) ↦ rw (e, set_uid) (inl refl)
]

checked-IsWhole :
    (value : ℤ) (f : Settings → Settings) (uid : ℕ) (s : State)
    → IsWhole s (if in_range value then set_uid f uid s else (1, s))
checked-IsWhole value f uid s =
    if_both (IsWhole s) (in_range value) _ _ (set_uid-AreWhole f uid s) (inr refl)

set_command-IsWhole :
    (who : Who) (act : ℕ → State → ℕ × State) (fd : ℕ) (s : State)
    → who ≢ all
    → AreWhole act
    → IsWhole s (set_command who act fd s)
unfolding set_command set_self
set_command-IsWhole self act fd s h k =
    if_both (IsWhole s) (get_client_uid_by_fd s fd == 0) _ _ (inr refl)
      (k (get_client_uid_by_fd s fd) s)
set_command-IsWhole all act fd s h k = absurd (h refl)
set_command-IsWhole (client (pos uid)) act fd s h k = k uid s
set_command-IsWhole (client (negsuc n)) act fd s h k = inr refl

-- The answer is OK, or nothing changed.
abbrev IsAnswered : Param → State → SetReply × State → Type 0
IsAnswered p s r = (r.0 ≡ ok_set p) ⊎ (r.1 ≡ s)

set_answer-IsAnswered :
    (p : Param) (s : State) (r : ℕ × State) → IsWhole s r → IsAnswered p s (set_answer p r)
set_answer-IsAnswered p s (zero, t) h = inl refl
set_answer-IsAnswered p s (suc n, t) (inl e) = absurd (omega (arith, e))
set_answer-IsAnswered p s (suc n, t) (inr e) = inr e

module _ (who : Who) (one : who ≢ all) where
  set_read-IsAnswered :
      {A : Type 0} (p : Param) (read : SetReply ⊎ A) (act : A → ℕ → State → ℕ × State) (fd : ℕ)
      (s : State)
      → ((a : A) → AreWhole (act a))
      → IsAnswered p s (set_read p read act who fd s)
  unfolding set_read
  set_read-IsAnswered p (inl refused) act fd s k = inr refl
  set_read-IsAnswered p (inr a) act fd s k =
      set_answer-IsAnswered p s (set_command who (act a) fd s)
        (set_command-IsWhole who (act a) fd s one (k a))

parse_priority-IsAnswered :
    (strdown : List ℕ → List ℕ) (line : List ℕ) (who : Who) (fd : ℕ) (s : State)
    → who ≢ all
    → IsAnswered priority s (parse_priority strdown line who fd s)
unfolding parse_priority set_priority_uid
parse_priority-IsAnswered strdown line self fd s one =
    set_read-IsAnswered self one priority _ set_priority_uid fd s (λ a. set_uid-AreWhole _)
parse_priority-IsAnswered strdown line who fd s one = inr refl

set_param-IsAnswered :
    (strdown : List ℕ → List ℕ) (line : List ℕ) (sock : Sock) (p : Param) (who : Who) (fd : ℕ)
    (s : State)
    → who ≢ all
    → IsAnswered p s (set_param strdown line sock p who fd s)
unfolding set_param set_rate_uid set_pitch_uid set_pitch_range_uid set_volume_uid
    set_punctuation_mode_uid set_capital_letter_recognition_uid set_pause_context_uid
    set_spelling_uid set_ssml_mode_uid
set_param-IsAnswered strdown line sock priority who fd s one =
    if_both (IsAnswered priority s) (sock.inside_block == 0) _ _
      (parse_priority-IsAnswered strdown line who fd s one) (inr refl)
set_param-IsAnswered strdown line sock rate who fd s one =
    set_read-IsAnswered who one rate _ set_rate_uid fd s (λ a. checked-IsWhole a _)
set_param-IsAnswered strdown line sock pitch who fd s one =
    set_read-IsAnswered who one pitch _ set_pitch_uid fd s (λ a. checked-IsWhole a _)
set_param-IsAnswered strdown line sock pitch_range who fd s one =
    set_read-IsAnswered who one pitch_range _ set_pitch_range_uid fd s (λ a. checked-IsWhole a _)
set_param-IsAnswered strdown line sock volume who fd s one =
    set_read-IsAnswered who one volume _ set_volume_uid fd s (λ a. checked-IsWhole a _)
set_param-IsAnswered strdown line sock punctuation who fd s one =
    set_read-IsAnswered who one punctuation _ set_punctuation_mode_uid fd s
      (λ a. set_uid-AreWhole _)
set_param-IsAnswered strdown line sock cap_let_recogn who fd s one =
    set_read-IsAnswered who one cap_let_recogn _ set_capital_letter_recognition_uid fd s
      (λ a. set_uid-AreWhole _)
set_param-IsAnswered strdown line sock pause_context who fd s one =
    set_read-IsAnswered who one pause_context _ set_pause_context_uid fd s (λ a. set_uid-AreWhole _)
set_param-IsAnswered strdown line sock spelling who fd s one =
    if_both (IsAnswered spelling s) (sock.inside_block == 0) _ _
      (set_read-IsAnswered who one spelling _ _ fd s (λ a. set_uid-AreWhole _)) (inr refl)
set_param-IsAnswered strdown line sock ssml_mode who fd s one =
    set_read-IsAnswered who one ssml_mode _ _ fd s (λ a. set_uid-AreWhole _)

set_for-IsAnswered :
    (strdown : List ℕ → List ℕ) (line : List ℕ) (sock : Sock) (p : Param) (who : SetReply ⊎ Who)
    (fd : ℕ) (s : State)
    → who ≢ inr all
    → IsAnswered p s (set_for strdown line sock p who fd s)
set_for-IsAnswered strdown line sock p (inl refused) fd s one = inr refl
set_for-IsAnswered strdown line sock p (inr who) fd s one =
    set_param-IsAnswered strdown line sock p who fd s (λ e. one (ap inr e))

-- A SET command for one of the modelled parameters, which is not for all clients and is not answered by OK, changes
-- nothing.
pub parse_set_param_refused :
    (strdown : List ℕ → List ℕ) (line : List ℕ) (sock : Sock) (p : Param) (fd : ℕ) (s : State)
    → read_who strdown line ≢ inr all
    → (parse_set_param strdown line sock p fd s).0 ≢ ok_set p
    → (parse_set_param strdown line sock p fd s).1 ≡ s
unfolding parse_set_param
parse_set_param_refused strdown line sock p fd s one bad =
    elim (set_for-IsAnswered strdown line sock p (read_who strdown line) fd s one) [
      | inl e ↦ absurd (bad e)
      | inr e ↦ e
    ]
