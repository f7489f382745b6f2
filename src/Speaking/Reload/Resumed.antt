-- ===== src/Speaking/Reload/Resumed.antt =====
-- src/server/speaking.c: what the paused list holds after a resume request was handled.
use mathlib.Core.Path.{subst, ap₂}
use mathlib.Core.Option.{some-injective}
use speechd.Base.{
  ◌⊎◌, ℕ, zero, suc, ◌<◌, ◌≡◌, Bool, false, not, none, some, List, [], ◌∷◌, length, get_elem?,
  remove_at, find_index, select, All, arith, refl, sym, ap, ◌∙◌, Option-cases, inl, inr,
}
use speechd.Base.Int.{ℤ}
use speechd.Message.{Message}
use speechd.Server.{State, ◌>>=◌, done}
use speechd.Server.Clients.{
  get_client_settings_by_fd, get_client_settings_by_uid, get_client_uid_by_fd,
}
use speechd.Speaking.Spoken.{AreKnown, AreKnown-tables}
use speechd.Speaking.Choose.{message_nto_speak}
use speechd.Speaking.Reload.{
  resume_handled, reload_message, find_resumable, forget_current, resume_loop, resume,
}
use speechd.Speaking.Reload.Returns.{reload_message-returns}

-- The messages that are held back, in their order.
abbrev pub held : State → List Message → List Message
held s queue = select (message_nto_speak s) queue

module _ (h : Message → Bool) where
  select-all :
      (queue : List Message) → find_index (λ m. not (h m)) queue ≡ none → select h queue ≡ queue
  select-all [] e = refl
  select-all (m ∷ queue) e = ground (arith, e, select-all queue)

  -- The message that is found, and the list without it.
  record IsTaken (queue : List Message) (i : ℕ) : Type 0 where
    taken : Message
    found : get_elem? queue i ≡ some taken
    shorter : suc (length (remove_at i queue)) ≡ length queue
    kept : select h (remove_at i queue) ≡ select h queue

  find_index-IsTaken :
      (queue : List Message) (i : ℕ) → find_index (λ m. not (h m)) queue ≡ some i → IsTaken queue i
  find_index-IsTaken [] i e = cc
  find_index-IsTaken (m ∷ queue) zero e = record {
    taken = m;
    found = refl;
    shorter = refl;
    kept = ground (arith, e);
  }
  find_index-IsTaken (m ∷ queue) (suc i) e =
      let f : find_index (λ x. not (h x)) queue ≡ some i = ground (arith, e) in
      let rest = find_index-IsTaken queue i f in
      record {
        taken = rest.taken;
        found = rest.found;
        shorter = ap suc rest.shorter;
        kept = ground (arith, e, rest.kept);
      }

All-remove_at :
    (P : Message → Type 0) (queue : List Message) (i : ℕ) (m : Message)
    → get_elem? queue i ≡ some m
    → All P queue
    → P m × All P (remove_at i queue)
All-remove_at P [] i m e h = cc
All-remove_at P (x ∷ queue) zero m e h = (subst P (some-injective x m e) h.0, h.1)
All-remove_at P (x ∷ queue) (suc i) m e h =
    let rest = All-remove_at P queue i m e h.1 in (rest.0, (h.0, rest.1))

-- The current message is as before, or there is none any more.
abbrev pub IsKept : State → State → Type 0
IsKept s t = (t.current_message ≡ s.current_message) ⊎ (t.current_message ≡ none)

IsKept-trans : (s t u : State) → IsKept s t → IsKept t u → IsKept s u
IsKept-trans s t u h (inr k) = inr k
IsKept-trans s t u (inl h) (inl k) = inl (k ∙ h)
IsKept-trans s t u (inr h) (inl k) = inr (k ∙ h)

forget_current-IsKept : (m : Message) (s : State) → IsKept s (forget_current m s)
unfolding forget_current
forget_current-IsKept m s = ground arith

-- What handling a resume request leaves, when it began at `s`.
pub record IsResumed (s t : State) : Type 0 where
  pub paused : t.paused_list ≡ held s s.paused_list
  pub uids : t.fd_uid ≡ s.fd_uid
  pub settings : t.fd_settings ≡ s.fd_settings
  pub current : IsKept s t

resumable-none : (s : State) → find_resumable s ≡ none → s.paused_list ≡ held s s.paused_list
unfolding find_resumable
resumable-none s e = sym (select-all (message_nto_speak s) s.paused_list e)

resumable-some :
    (s : State) (i : ℕ) → find_resumable s ≡ some i → IsTaken (message_nto_speak s) s.paused_list i
unfolding find_resumable
resumable-some s i e = find_index-IsTaken (message_nto_speak s) s.paused_list i e

-- A round of the loop.
resume_loop_round :
    (fuel : ℕ) (s : State) (i : ℕ) (m : Message) (r : ℤ × State)
    → find_resumable s ≡ some i
    → get_elem? s.paused_list i ≡ some m
    → reload_message m (record s { paused_list = remove_at i s.paused_list }) ≡ done r
    → resume_loop (suc fuel) s ≡ resume_loop fuel (forget_current m r.1)
unfolding resume_loop
resume_loop_round fuel s i m r e f q = rw (e, resume_loop, f, q) refl

held-IsResumed :
    (s t : State) (queue : List Message)
    → t.fd_uid ≡ s.fd_uid
    → t.fd_settings ≡ s.fd_settings
    → held t queue ≡ held s queue
unfolding message_nto_speak get_client_settings_by_fd get_client_uid_by_fd
held-IsResumed s t queue e f =
    ap₂ (λ a b. held (record s { fd_uid = a; fd_settings = b }) queue) e f

-- The rounds behind the first, from the state `t` that it leaves.
IsResumed-before :
    (s t u : State) {i : ℕ}
    → IsTaken (message_nto_speak s) s.paused_list i
    → t.paused_list ≡ remove_at i s.paused_list
    → t.fd_uid ≡ s.fd_uid
    → t.fd_settings ≡ s.fd_settings
    → IsKept s t
    → IsResumed t u
    → IsResumed s u
IsResumed-before s t u {i} taken paused uids settings kept h = record {
  paused =
      h.paused ∙ held-IsResumed s t t.paused_list uids settings ∙ ap (held s) paused ∙ taken.kept;
  uids = h.uids ∙ uids;
  settings = h.settings ∙ settings;
  current = IsKept-trans s t u kept h.current;
}

forget_current-tables :
    (m : Message) (s : State)
    → ((forget_current m s).paused_list ≡ s.paused_list)
      × ((forget_current m s).fd_uid ≡ s.fd_uid)
      × ((forget_current m s).fd_settings ≡ s.fd_settings)
unfolding forget_current
forget_current-tables m s = ground arith

resume_loop-IsResumed :
    (fuel : ℕ) (s : State)
    → length s.paused_list < fuel
    → AreKnown s s.paused_list
    → (t : State) × (resume_loop fuel s ≡ done t) × IsResumed s t
unfolding resume_loop get_client_settings_by_uid
resume_loop-IsResumed zero s h known = absurd (omega (arith, h))
resume_loop-IsResumed (suc fuel) s h known = elim (Option-cases (find_resumable s)) [
  | inl e ↦ (
    s,
    rw (e, resume_loop) refl,
    record { paused = resumable-none s e; uids = refl; settings = refl; current = inl refl },
  )
  | inr (i, e) ↦
      let taken = resumable-some s i e in
      let m = taken.taken in
      let (own, others) = All-remove_at _ s.paused_list i m taken.found known in
      let (r, q, same) =
        reload_message-returns m (record s { paused_list = remove_at i s.paused_list }) own in
      let t = forget_current m r.1 in
      let paused : t.paused_list ≡ remove_at i s.paused_list =
        (forget_current-tables m r.1).0 ∙ same.paused in
      let uids : t.fd_uid ≡ s.fd_uid = (forget_current-tables m r.1).1 ∙ same.uids in
      let settings : t.fd_settings ≡ s.fd_settings =
        (forget_current-tables m r.1).2 ∙ same.settings in
      let (u, k, resumed) =
        resume_loop-IsResumed fuel t (omega (arith, h, taken.shorter, ap length paused))
          (subst (AreKnown t) (sym paused) (AreKnown-tables s t _ settings others)) in
      (
        u,
        resume_loop_round fuel s i m r e taken.found q ∙ k,
        IsResumed-before s t u taken paused uids settings
            (IsKept-trans s r.1 t (inl same.current) (forget_current-IsKept m r.1)) resumed,
      )
]

-- If the clients of all messages in the paused list have settings, a resume request is handled to its end: then
-- the paused list has exactly the messages that are still held back, in their order, the tables of
-- clients are as before, the current message is kept or forgotten, and no resume is requested any more.
pub resume-IsResumed :
    (s : State)
    → AreKnown s s.paused_list
    → (t : State) × (resume s ≡ done t) × IsResumed s t × (t.resume_requested ≡ false)
unfolding resume
resume-IsResumed s known =
    let (t, e, h) = resume_loop-IsResumed (suc (length s.paused_list)) s (omega arith) known in
    (
      resume_handled t,
      ap (λ r. r >>= λ x. done (resume_handled x)) e,
      record { paused = h.paused; uids = h.uids; settings = h.settings; current = h.current },
      refl,
    )
