-- ===== src/Speaking/Events/Reports.antt =====
-- Who is told what when the speaking module reports.
use mathlib.Core.Path.{subst}
use speechd.Base.{
  ℕ, ◌≡◌, ◌≢◌, refl, sym, ◌∙◌, Bool, true, false, Option, none, some, List, [], ◌∷◌, ◌++◌, All,
  All-append, append-nil, append_assoc, Bool-cases, Option-cases, inl, inr, arith,
}
use speechd.Base.Int.{pos}
use speechd.Message.{
  Message, has_flag, flag_begin, flag_end, flag_index_marks, flag_cancel, flag_pause, flag_resume,
}
use speechd.Server.{
  Event, Effect, State, Module, report, begin, end, pause, resume, cancel, index_mark, post,
}
use speechd.Speaking.Events.{
  Report, silent, began, ended, paused, stopped, own_mark, client_mark, read_mark, notify,
  forget_module, with_result, silence, on_report, on_mark, is_sb_speaking,
}

-- The flag of an event in a mask.
abbrev pub flag_of : Event → ℕ
flag_of begin = flag_begin
flag_of end = flag_end
flag_of pause = flag_pause
flag_of resume = flag_resume
flag_of cancel = flag_cancel
flag_of (index_mark mark) = flag_index_marks

-- A wake-up of the speaking thread, or a notification of an event of the message `m`, sent to the
-- client of `m`, that this client asked for.
abbrev pub IsAsked : Message → Effect → Type 0
IsAsked m post = Unit
IsAsked m (report e fd id uid) =
    (fd ≡ m.settings.fd)
    × (id ≡ m.id)
    × (uid ≡ m.settings.uid)
    × (has_flag m.settings.notification (flag_of e) ≡ true)
IsAsked m _ = ⊥

abbrev pub AllAsked : Message → List Effect → Type 0
AllAsked m = All (IsAsked m)

-- What is done to the world between two states.
abbrev pub Adds : Message → State → State → Type 0
Adds m s t = (es : List Effect) × (t.log ≡ s.log ++ es) × AllAsked m es

notify-AllAsked : (e : Event) (m : Message) → AllAsked m (notify (flag_of e) e m)
notify-AllAsked e m = elim (Bool-cases (has_flag m.settings.notification (flag_of e))) [
  | inl h ↦ rw h ((refl, refl, refl, h), tt)
  | inr h ↦ rw h tt
]

-- A notification, and the wake-up behind it.
with_post :
    (e : Event) (m : Message) (s : State)
    → (es : List Effect) × ((s.log ++ notify (flag_of e) e m) ++ (post ∷ []) ≡ s.log ++ es)
      × AllAsked m es
with_post e m s = (
  notify (flag_of e) e m ++ (post ∷ []),
  append_assoc s.log (notify (flag_of e) e m) (post ∷ []),
  All-append (IsAsked m) (notify (flag_of e) e m) (post ∷ []) (notify-AllAsked e m) (tt, tt),
)

on_report-Adds : (r : Report) (m : Message) (s : State) → Adds m s (on_report r m s)
unfolding on_report
on_report-Adds silent m s = ([], sym (append-nil s.log), tt)
on_report-Adds began m s = elim (Bool-cases m.settings.paused_while_speaking) [
  | inl h ↦ rw h (notify flag_resume resume m, refl, notify-AllAsked resume m)
  | inr h ↦ rw h (notify flag_begin begin m, refl, notify-AllAsked begin m)
]
on_report-Adds ended m s = with_post end m s
on_report-Adds paused m s = (notify flag_pause pause m, refl, notify-AllAsked pause m)
on_report-Adds stopped m s = with_post cancel m s
on_report-Adds (own_mark mark) m s = ([], sym (append-nil s.log), tt)
on_report-Adds (client_mark mark) m s =
    (notify flag_index_marks (index_mark mark) m, refl, notify-AllAsked (index_mark mark) m)

-- Something is spoken only by a module.
abbrev pub HasModule : State → Type 0
HasModule s = s.speaking ≡ true → s.speaking_module ≢ none

-- What `is_sb_speaking` does in a state.
abbrev pub Reported : Message → State → State → Type 0
Reported m s t = Adds m s t × HasModule t

false-ne_true : {A : Type 0} → (◌≡◌ {A = Bool} false true) → A
false-ne_true h = absurd (ground arith)

some-ne_none : (o : Module) {x : Option Module} → x ≡ some o → x ≢ none
some-ne_none o e h = ground arith

on_report-module :
    (r : Report) (m : Message) (s : State) → (on_report r m s).speaking_module ≡ s.speaking_module
unfolding on_report
on_report-module silent m s = refl
on_report-module began m s = elim (Bool-cases m.settings.paused_while_speaking) [
  | inl h ↦ rw h refl
  | inr h ↦ rw h refl
]
on_report-module ended m s = refl
on_report-module paused m s = refl
on_report-module stopped m s = refl
on_report-module (own_mark mark) m s = refl
on_report-module (client_mark mark) m s = refl

-- A module that no longer speaks is forgotten.
forget_module-Reported :
    (m : Message) (s t : State)
    → Adds m s t
    → t.speaking_module ≢ none
    → Reported m s (forget_module t)
forget_module-Reported m s t h k = elim (Bool-cases t.speaking) [
  | inl e ↦ simp e (h, λ _. k)
  | inr e ↦ simp e (h, λ k. false-ne_true k)
]

on_report-Reported :
    (r : Report) (m : Message) (s : State)
    → s.speaking_module ≢ none
    → Reported m s (forget_module (on_report r m s))
on_report-Reported r m s k =
    forget_module-Reported m s (on_report r m s) (on_report-Adds r m s)
      (λ e. k (sym (on_report-module r m s) ∙ e))

on_mark-Reported :
    (r : Report) (m : Message) (s : State)
    → s.speaking_module ≢ none
    → Reported m s (on_mark r m s).1
unfolding on_mark
on_mark-Reported silent m s k = (([], sym (append-nil s.log), tt), λ _. k)
on_mark-Reported began m s k = on_report-Reported began m s k
on_mark-Reported ended m s k = on_report-Reported ended m s k
on_mark-Reported paused m s k = on_report-Reported paused m s k
on_mark-Reported stopped m s k = on_report-Reported stopped m s k
on_mark-Reported (own_mark mark) m s k = on_report-Reported (own_mark mark) m s k
on_mark-Reported (client_mark mark) m s k = on_report-Reported (client_mark mark) m s k

pub is_sb_speaking-none :
    (mark : Option (List ℕ)) (s : State)
    → s.speaking_module ≡ none
    → is_sb_speaking mark s ≡ with_result (record s { speaking = false; speaking_module = none })
unfolding is_sb_speaking
is_sb_speaking-none mark s e = ground arith

pub is_sb_speaking-unread :
    (s : State) (o : Module) (m : Message)
    → s.speaking_module ≡ some o
    → s.current_message ≡ some m
    → is_sb_speaking none s ≡ (pos 0, silence s)
unfolding is_sb_speaking
is_sb_speaking-unread s o m e h = ground arith

pub is_sb_speaking-mark :
    (text : List ℕ) (s : State) (o : Module) (m : Message)
    → s.speaking_module ≡ some o
    → s.current_message ≡ some m
    → is_sb_speaking (some text) s ≡ on_mark (read_mark text) m s
unfolding is_sb_speaking
is_sb_speaking-mark text s o m e h = ground arith

-- When the module reports on the current message: the client of the message is told of no event that
-- it did not ask for, no other client is told of anything, and if something is still spoken
-- afterwards, a module speaks it.
pub is_sb_speaking-Reported :
    (mark : Option (List ℕ)) (s : State) (m : Message)
    → s.current_message ≡ some m
    → Reported m s (is_sb_speaking mark s).1
is_sb_speaking-Reported mark s m h = elim (Option-cases s.speaking_module) [
  | inl e ↦
      subst (λ r. Reported m s r.1) (sym (is_sb_speaking-none mark s e))
        (([], sym (append-nil s.log), tt), λ k. false-ne_true k)
  | inr (o, e) ↦ elim mark as (λ k. Reported m s (is_sb_speaking k s).1) [
    | none ↦
        subst (λ r. Reported m s r.1) (sym (is_sb_speaking-unread s o m e h))
          (([], sym (append-nil s.log), tt), λ k. false-ne_true k)
    | some text ↦
        subst (λ r. Reported m s r.1) (sym (is_sb_speaking-mark text s o m e h))
          (on_mark-Reported (read_mark text) m s (some-ne_none o e))
  ]
]
