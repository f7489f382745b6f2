-- ===== src/ClientSettings/Notified.antt =====
-- src/server/set.c: which events a client is told of (`set_notification_self`).
use Prim.Native.String.{String}
use speechd.Base.{
  ℕ, ◌+◌, ◌-◌, ◌==◌, ◌≡◌, ◌≢◌, refl, ap, ◌∙◌, ne→==, Bool, Option, none, some, arith, if◌then◌else◌,
  str_eq,
}
use speechd.Message.{
  Settings, has_flag, flag_begin, flag_end, flag_index_marks, flag_cancel, flag_pause, flag_resume,
}
use speechd.Server.{State}
use speechd.Server.Clients.{get_client_uid_by_fd, get_client_settings_by_uid, write_settings}

-- `mask | flag`, for a flag that is a power of two.
abbrev pub set_flag : ℕ → ℕ → ℕ
set_flag flag mask = if has_flag mask flag then mask else mask + flag

-- `mask & ~flag`
abbrev pub clear_flag : ℕ → ℕ → ℕ
clear_flag flag mask = if has_flag mask flag then mask - flag else mask

-- `SET_NOTIFICATION_STATE`
abbrev pub put_flag : Bool → ℕ → ℕ → ℕ
put_flag val flag mask = if val then set_flag flag mask else clear_flag flag mask

-- The `else if` chain on the name of the event: the new mask, or none for an unknown name.
unfoldable pub new_mask : String → Bool → ℕ → Option ℕ
new_mask type val mask =
    if str_eq type "begin"
    then some (put_flag val flag_begin mask)
    else if str_eq type "end"
    then some (put_flag val flag_end mask)
    else if str_eq type "index_marks"
    then some (put_flag val flag_index_marks mask)
    else if str_eq type "pause"
    then some (put_flag val flag_pause mask)
    else if str_eq type "resume"
    then some (put_flag val flag_resume mask)
    else if str_eq type "cancel"
    then some (put_flag val flag_cancel mask)
    else if str_eq type "all"
    then some (
        put_flag val flag_resume (
          put_flag val flag_pause (
            put_flag val flag_cancel (
              put_flag val flag_index_marks
                (put_flag val flag_begin (put_flag val flag_end mask))))))
    else none

-- `set_notification_self`
unfoldable pub set_notification_self : ℕ → String → Bool → State → ℕ × State
unfolding new_mask
set_notification_self fd type val s =
    if get_client_uid_by_fd s fd == 0
    then (1, s)
    else elim (get_client_settings_by_uid s (get_client_uid_by_fd s fd)) [
      | none ↦ (1, s)
      | some c ↦ elim (new_mask type val c.notification) [
        | none ↦ (1, s)
        | some mask ↦
            (0, write_settings (get_client_uid_by_fd s fd) (record c { notification = mask }) s)
      ]
    ]

-- What a client is told of.
pub record Told : Type 0 where
  pub begins : Bool
  pub ends : Bool
  pub marks : Bool
  pub cancels : Bool
  pub pauses : Bool
  pub resumes : Bool

abbrev pub told : ℕ → Told
told mask = record {
  begins = has_flag mask flag_begin;
  ends = has_flag mask flag_end;
  marks = has_flag mask flag_index_marks;
  cancels = has_flag mask flag_cancel;
  pauses = has_flag mask flag_pause;
  resumes = has_flag mask flag_resume;
}

-- What SET NOTIFICATION can name.
pub data Kind : Type 0 where
  begin end index_marks cancel pause resume all : Kind

abbrev pub name : Kind → String
name begin = "begin"
name end = "end"
name index_marks = "index_marks"
name cancel = "cancel"
name pause = "pause"
name resume = "resume"
name all = "all"

abbrev pub set_told : Kind → Bool → Told → Told
set_told begin val t = record t { begins = val }
set_told end val t = record t { ends = val }
set_told index_marks val t = record t { marks = val }
set_told cancel val t = record t { cancels = val }
set_told pause val t = record t { pauses = val }
set_told resume val t = record t { resumes = val }
set_told all val t = record {
  begins = val;
  ends = val;
  marks = val;
  cancels = val;
  pauses = val;
  resumes = val;
}

told_eq :
    (t u : Told)
    → t.begins ≡ u.begins
    → t.ends ≡ u.ends
    → t.marks ≡ u.marks
    → t.cancels ≡ u.cancels
    → t.pauses ≡ u.pauses
    → t.resumes ≡ u.resumes
    → t ≡ u
told_eq t u a b c d e f = ground arith

told-begin : (val : Bool) (m : ℕ) → told (put_flag val flag_begin m) ≡ set_told begin val (told m)
told-begin val m =
    told_eq (told (put_flag val flag_begin m)) (set_told begin val (told m)) (ground arith)
      (ground arith) (ground arith) (ground arith) (ground arith) (ground arith)

told-end : (val : Bool) (m : ℕ) → told (put_flag val flag_end m) ≡ set_told end val (told m)
told-end val m =
    told_eq (told (put_flag val flag_end m)) (set_told end val (told m)) (ground arith)
      (ground arith) (ground arith) (ground arith) (ground arith) (ground arith)

told-index_marks :
    (val : Bool) (m : ℕ)
    → told (put_flag val flag_index_marks m) ≡ set_told index_marks val (told m)
told-index_marks val m =
    told_eq (told (put_flag val flag_index_marks m)) (set_told index_marks val (told m))
      (ground arith) (ground arith) (ground arith) (ground arith) (ground arith) (ground arith)

told-cancel :
    (val : Bool) (m : ℕ) → told (put_flag val flag_cancel m) ≡ set_told cancel val (told m)
told-cancel val m =
    told_eq (told (put_flag val flag_cancel m)) (set_told cancel val (told m)) (ground arith)
      (ground arith) (ground arith) (ground arith) (ground arith) (ground arith)

told-pause : (val : Bool) (m : ℕ) → told (put_flag val flag_pause m) ≡ set_told pause val (told m)
told-pause val m =
    told_eq (told (put_flag val flag_pause m)) (set_told pause val (told m)) (ground arith)
      (ground arith) (ground arith) (ground arith) (ground arith) (ground arith)

told-resume :
    (val : Bool) (m : ℕ) → told (put_flag val flag_resume m) ≡ set_told resume val (told m)
told-resume val m =
    told_eq (told (put_flag val flag_resume m)) (set_told resume val (told m)) (ground arith)
      (ground arith) (ground arith) (ground arith) (ground arith) (ground arith)

-- Each name switches exactly what it says, and "all" switches everything.
told-new_mask :
    (k : Kind) (val : Bool) (mask : ℕ)
    → (m : ℕ) × (new_mask (name k) val mask ≡ some m) × (told m ≡ set_told k val (told mask))
unfolding new_mask
told-new_mask begin val m = (put_flag val flag_begin m, refl, told-begin val m)
told-new_mask end val m = (put_flag val flag_end m, refl, told-end val m)
told-new_mask index_marks val m = (put_flag val flag_index_marks m, refl, told-index_marks val m)
told-new_mask cancel val m = (put_flag val flag_cancel m, refl, told-cancel val m)
told-new_mask pause val m = (put_flag val flag_pause m, refl, told-pause val m)
told-new_mask resume val m = (put_flag val flag_resume m, refl, told-resume val m)
told-new_mask all val m =
    let a = put_flag val flag_end m in
    let b = put_flag val flag_begin a in
    let c = put_flag val flag_index_marks b in
    let d = put_flag val flag_cancel c in
    let e = put_flag val flag_pause d in
    (
      put_flag val flag_resume e,
      refl,
      told-resume val e
          ∙ ap (set_told resume val) (
              told-pause val d
              ∙ ap (set_told pause val) (
                  told-cancel val c
                  ∙ ap (set_told cancel val) (
                      told-index_marks val b
                      ∙ ap (set_told index_marks val)
                          (told-begin val a ∙ ap (set_told begin val) (told-end val m))))),
    )

-- Switching the notification of an event for a client that is known succeeds: the client is told of
-- this event as was asked, or of all events where it asked for all, and of every other event as
-- before; nothing else in its settings changes.
pub set_notification_self_lem :
    (fd : ℕ) (k : Kind) (val : Bool) (s : State) (c : Settings)
    → let uid = get_client_uid_by_fd s fd in
      uid ≢ 0
      → get_client_settings_by_uid s uid ≡ some c
      → (m : ℕ) × (set_notification_self fd (name k) val s
          ≡ (0, write_settings uid (record c { notification = m }) s))
        × (told m ≡ set_told k val (told c.notification))
unfolding set_notification_self
set_notification_self_lem fd k val s c h known =
    let (m, e, f) = told-new_mask k val c.notification in
    (m, rw (ne→== (get_client_uid_by_fd s fd) 0 h, known, e, set_notification_self) refl, f)
