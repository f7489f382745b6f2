-- ===== src/Connection/Sound.antt =====
-- The tables of clients agree with each other.
use mathlib.Core.Path.{subst}
use speechd.Base.{
  ℕ, suc, ◌≤◌, ◌<◌, ◌≡◌, ◌≢◌, ◌⊎◌, inl, inr, refl, sym, ap, ◌∙◌, true, false, Option, none, some,
  List, arith, if◌then◌else◌, Option-cases, ne→==, eq→==,
}
use speechd.Message.{Settings}
use speechd.Server.{State}
use speechd.Server.Clients.{
  lookup, insert, remove, lookup-insert, lookup-remove, get_client_uid_by_fd,
  get_client_settings_by_fd, write_settings,
}
use speechd.Connection.{
  Connections, new_client, add_client, remove_client, tag_inactive, default_fd_set,
  speechd_connection_new, speechd_connection_destroy,
}

-- The settings belong to a client that is there, on this descriptor.
pub record IsClient (fd uid : ℕ) (c : Settings) : Type 0 where
  pub here : c.fd ≡ some fd
  pub self : c.uid ≡ uid
  pub is_active : c.active ≡ true

-- Every descriptor in use is below the highest one, its client has a number that was given out, its
-- own settings, and no other descriptor.
pub record IsSound (s : State) : Type 0 where
  pub below : (fd uid : ℕ) → lookup fd s.fd_uid ≡ some uid → fd ≤ s.max_fd
  pub given : (fd uid : ℕ) → lookup fd s.fd_uid ≡ some uid → (0 < uid) × (uid ≤ s.max_uid)
  pub apart : (i j uid : ℕ) → lookup i s.fd_uid ≡ some uid → lookup j s.fd_uid ≡ some uid → i ≡ j
  pub known :
      (fd uid : ℕ)
      → lookup fd s.fd_uid ≡ some uid
      → (c : Settings) × (lookup uid s.fd_settings ≡ some c) × IsClient fd uid c

lookup-insert_cases :
    {V : Type 0} (k j : ℕ) (d c : V) (t : List (ℕ × V))
    → lookup j (insert k d t) ≡ some c
    → ((k ≡ j) × (c ≡ d)) ⊎ ((k ≢ j) × (lookup j t ≡ some c))
lookup-insert_cases k j d c t h = ground (arith, lookup-insert k j d t)

lookup-remove_cases :
    {V : Type 0} (k j : ℕ) (c : V) (t : List (ℕ × V))
    → lookup j (remove k t) ≡ some c
    → (k ≢ j) × (lookup j t ≡ some c)
lookup-remove_cases k j c t h = ground (arith, lookup-remove k j t)

-- The number of a new client is given out for the first time.
add_client-apart :
    (fd : ℕ) (s : State) (i j uid : ℕ)
    → IsSound s
    → lookup i (insert fd (suc s.max_uid) s.fd_uid) ≡ some uid
    → lookup j (insert fd (suc s.max_uid) s.fd_uid) ≡ some uid
    → i ≡ j
add_client-apart fd s i j uid h e f =
    elim (lookup-insert_cases fd i (suc s.max_uid) uid s.fd_uid e) [
      | inl (p, q) ↦ elim (lookup-insert_cases fd j (suc s.max_uid) uid s.fd_uid f) [
        | inl (p', q') ↦ sym p ∙ p'
        | inr (p', q') ↦ ground (arith, h.given j uid q')
      ]
      | inr (p, q) ↦ elim (lookup-insert_cases fd j (suc s.max_uid) uid s.fd_uid f) [
        | inl (p', q') ↦ ground (arith, h.given i uid q)
        | inr (p', q') ↦ h.apart i j uid q q'
      ]
    ]

add_client-known :
    (global blank : Settings) (fd : ℕ) (s : State) (i uid : ℕ)
    → IsSound s
    → lookup i (insert fd (suc s.max_uid) s.fd_uid) ≡ some uid
    → (c : Settings) × (lookup uid (add_client global blank fd s).fd_settings ≡ some c)
      × IsClient i uid c
unfolding default_fd_set
add_client-known global blank fd s i uid h e =
    let new = new_client global blank fd (suc s.max_uid) in
    elim (lookup-insert_cases fd i (suc s.max_uid) uid s.fd_uid e) [
      | inl (p, q) ↦ (
        new,
        lookup-insert (suc s.max_uid) uid new s.fd_settings
            ∙ ap (λ b. if b then some new else lookup uid s.fd_settings)
                (eq→== (suc s.max_uid) uid (sym q)),
        record { here = ap some p; self = sym q; is_active = refl },
      )
      | inr (p, q) ↦
          let (c, l, is) = h.known i uid q in
          (
            c,
            lookup-insert (suc s.max_uid) uid new s.fd_settings
                ∙ ap (λ b. if b then some new else lookup uid s.fd_settings)
                    (ne→== (suc s.max_uid) uid (ground (arith, h.given i uid q)))
                ∙ l,
            is,
          )
    ]

known_uid :
    (s : State) (fd : ℕ) (c : Settings)
    → get_client_settings_by_fd s fd ≡ some c
    → lookup fd s.fd_uid ≡ some (get_client_uid_by_fd s fd)
unfolding get_client_settings_by_fd get_client_uid_by_fd
known_uid s fd c e = ground arith

add_client-IsSound :
    (global blank : Settings) (fd : ℕ) (s : State)
    → IsSound s
    → IsSound (add_client global blank fd s)
add_client-IsSound global blank fd s h = record {
  below = λ i uid e. elim (lookup-insert_cases fd i (suc s.max_uid) uid s.fd_uid e) [
    | inl (p, q) ↦ ground arith
    | inr (p, q) ↦ ground (arith, h.below i uid q)
  ];
  given = λ i uid e. elim (lookup-insert_cases fd i (suc s.max_uid) uid s.fd_uid e) [
    | inl (p, q) ↦ ground arith
    | inr (p, q) ↦ ground (arith, h.given i uid q)
  ];
  apart = λ i j uid e f. add_client-apart fd s i j uid h e f;
  known = λ i uid e. add_client-known global blank fd s i uid h e;
}

-- Tagging writes to the settings of the client on that descriptor, if there is one.
tag_inactive_cases :
    (fd : ℕ) (s : State)
    → (tag_inactive fd s ≡ s)
      ⊎ ((uid : ℕ) × (c : Settings) × (lookup fd s.fd_uid ≡ some uid)
          × (tag_inactive fd s ≡ write_settings uid c s))
unfolding tag_inactive
tag_inactive_cases fd s = elim (Option-cases (get_client_settings_by_fd s fd)) [
  | inl e ↦ inl (rw (e, tag_inactive) refl)
  | inr (c, e) ↦ inr (
    get_client_uid_by_fd s fd,
    record c { fd = none; active = false },
    known_uid s fd c e,
    rw (e, tag_inactive) refl,
  )
]

-- The state `t` is `s` but for the settings of the client on `fd`.
record Besides (fd : ℕ) (s t : State) : Type 0 where
  uids : t.fd_uid ≡ s.fd_uid
  highest : t.max_fd ≡ s.max_fd
  count : t.max_uid ≡ s.max_uid
  others :
      (i uid : ℕ)
      → fd ≢ i
      → lookup i s.fd_uid ≡ some uid
      → lookup uid t.fd_settings ≡ lookup uid s.fd_settings

write_settings-Besides :
    (fd uid : ℕ) (c : Settings) (s : State)
    → IsSound s
    → lookup fd s.fd_uid ≡ some uid
    → Besides fd s (write_settings uid c s)
write_settings-Besides fd uid c s h e = record {
  uids = refl;
  highest = refl;
  count = refl;
  others = λ i u n f.
      lookup-insert uid u c s.fd_settings
      ∙ ap (λ b. if b then some c else lookup u s.fd_settings)
          (ne→== uid u (λ p. n (h.apart fd i u (e ∙ ap some p) f)));
}

tag_inactive-Besides : (fd : ℕ) (s : State) → IsSound s → Besides fd s (tag_inactive fd s)
tag_inactive-Besides fd s h = elim (tag_inactive_cases fd s) [
  | inl e ↦
      subst (Besides fd s) (sym e)
        (record { uids = refl; highest = refl; count = refl; others = λ i u n f. refl })
  | inr (uid, c, f, e) ↦ subst (Besides fd s) (sym e) (write_settings-Besides fd uid c s h f)
]

remove_client-IsSound :
    (fd : ℕ) (s t : State) → IsSound s → Besides fd s t → IsSound (remove_client fd t)
remove_client-IsSound fd s t h b = record {
  below = λ i uid e. let (n, f) = was i uid e in ground (arith, h.below i uid f, b.highest);
  given = λ i uid e. let (n, f) = was i uid e in ground (arith, h.given i uid f, b.count);
  apart = λ i j uid e f. h.apart i j uid (was i uid e).1 (was j uid f).1;
  known = λ i uid e.
      let (n, f) = was i uid e in
      let (c, l, is) = h.known i uid f in (c, b.others i uid n f ∙ l, is);
}
  where
    was :
        (i uid : ℕ)
        → lookup i (remove fd t.fd_uid) ≡ some uid
        → (fd ≢ i) × (lookup i s.fd_uid ≡ some uid)
    was i uid e =
        let (n, f) = lookup-remove_cases fd i uid t.fd_uid e in
        (n, ap (λ u. lookup i u) (sym b.uids) ∙ f)

-- Whoever connects or goes, in any order: every descriptor in use is below the highest one, its
-- client has a number that was given out, active settings of its own, and no other descriptor, if it
-- was so before.
pub connections-IsSound :
    (global blank : Settings) (fd : Option ℕ) (gone : ℕ) (k : Connections)
    → IsSound k.state
    → IsSound (speechd_connection_new global blank fd k).1.state
      × IsSound (speechd_connection_destroy gone k).state
unfolding speechd_connection_new speechd_connection_destroy
connections-IsSound global blank fd gone k h = (
  new_sound fd,
  remove_client-IsSound gone k.state (tag_inactive gone k.state) h
      (tag_inactive-Besides gone k.state h),
)
  where
    new_sound : (o : Option ℕ) → IsSound (speechd_connection_new global blank o k).1.state
    new_sound none = h
    new_sound (some i) = add_client-IsSound global blank i k.state h
