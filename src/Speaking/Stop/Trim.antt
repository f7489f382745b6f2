-- ===== src/Speaking/Stop/Trim.antt =====
-- What the loop over the end of a queue cuts off.
use speechd.Base.{
  ℕ, zero, suc, ◌<◌, ◌≡◌, ◌≢◌, refl, sym, ap, Bool, true, false, some, List, [], ◌∷◌, ◌++◌, All,
  All-append, last?, drop_last, length, append-nil, append_assoc, ◌∙◌, arith, Bool-cases,
  Option-cases, inl, inr,
}
use speechd.Types.{Priority, important}
use speechd.Server.Output.{output_stop}
use speechd.Server.Output.Frame.{output_stop-SameQueues}
use speechd.Message.{Message}
use speechd.Server.{State}
use speechd.Speaking.Priorities.{get_in, speaking_get_queue, speaking_set_queue}
use speechd.Speaking.Stop.{trim_last, trim}

drop_last-append :
    {A : Type 0} (xs : List A) (x : A) → last? xs ≡ some x → drop_last xs ++ x ∷ [] ≡ xs
drop_last-append [] x e = cc
drop_last-append (y ∷ []) x e = ground arith
drop_last-append (y ∷ z ∷ xs) x e = ap (◌∷◌ y) (drop_last-append (z ∷ xs) x e)

length-drop_last :
    {A : Type 0} (xs : List A) (x : A) → last? xs ≡ some x → length xs ≡ suc (length (drop_last xs))
length-drop_last [] x e = cc
length-drop_last (y ∷ []) x e = refl
length-drop_last (y ∷ z ∷ xs) x e = ap suc (length-drop_last (z ∷ xs) x e)

-- How a queue is split by the loop: a part that passes the test, as long as possible, is cut off
-- its end.
pub record Trimmed (test : Message → Bool) (queue kept : List Message) : Type 0 where
  pub cut : List Message
  pub split : queue ≡ kept ++ cut
  pub passes : All (λ m. test m ≡ true) cut
  pub stops : (m : Message) → last? kept ≡ some m → test m ≡ false

last_is :
    (test : Message → Bool) (queue : List Message) (m x : Message)
    → last? queue ≡ some m
    → last? queue ≡ some x
    → test m ≡ false
    → test x ≡ false
last_is test queue m x e f miss = cc

trim_last-Trimmed :
    (test : Message → Bool) (fuel : ℕ) (queue : List Message)
    → length queue < fuel
    → Trimmed test queue (trim_last test fuel queue)
unfolding trim_last
trim_last-Trimmed test zero queue h = absurd (omega arith)
trim_last-Trimmed test (suc fuel) queue h = elim (Option-cases (last? queue)) [
  | inl e ↦
      rw (e, trim_last)
        (record { cut = []; split = sym (append-nil queue); passes = tt; stops = λ m f. cc })
  | inr (m, e) ↦ elim (Bool-cases (test m)) [
    | inl hit ↦
        let rest =
          trim_last-Trimmed test fuel (drop_last queue)
            (omega (arith, length-drop_last queue m e)) in
        rw (e, trim_last, hit)
          (record {
            cut = rest.cut ++ m ∷ [];
            split =
                sym (drop_last-append queue m e)
                ∙ ap (λ l. l ++ m ∷ []) rest.split
                ∙ append_assoc (trim_last test fuel (drop_last queue)) rest.cut (m ∷ []);
            passes = All-append _ rest.cut _ rest.passes (hit, tt);
            stops = rest.stops;
          })
    | inr miss ↦
        rw (e, trim_last, miss)
          (record {
            cut = [];
            split = sym (append-nil queue);
            passes = tt;
            stops = λ x f. last_is test queue m x e f miss;
          })
  ]
]

pub trim-Trimmed :
    (test : Message → Bool) (queue : List Message) → Trimmed test queue (trim test queue)
unfolding trim
trim-Trimmed test queue = trim_last-Trimmed test (suc (length queue)) queue (omega arith)

pub get-set_same :
    (p : Priority) (l : List Message) (s : State)
    → speaking_get_queue p (speaking_set_queue p l s) ≡ l
get-set_same important l s = refl
get-set_same p l s = refl

pub get-set_other :
    (p q : Priority) (l : List Message) (s : State)
    → q ≢ p
    → speaking_get_queue q (speaking_set_queue p l s) ≡ speaking_get_queue q s
get-set_other important q l s h = ground arith
get-set_other p q l s h = ground arith

pub output_stop-get :
    (p : Priority) (s : State) → speaking_get_queue p (output_stop s) ≡ speaking_get_queue p s
output_stop-get p s = ap (get_in p) (output_stop-SameQueues s).queues

-- What a stop leaves: the queue of the priority that is spoken is trimmed, the others are as before.
pub record Stopped (test : Message → Bool) (p : Priority) (s t : State) : Type 0 where
  pub trimmed : Trimmed test (speaking_get_queue p s) (speaking_get_queue p t)
  pub others : (q : Priority) → q ≢ p → speaking_get_queue q t ≡ speaking_get_queue q s

pub trim-Stopped :
    (test : Message → Bool) (p : Priority) (s : State)
    → Stopped test p s
        (speaking_set_queue p (trim test (speaking_get_queue p (output_stop s))) (output_stop s))
trim-Stopped test p s = record {
  trimmed =
      rw
        (
          get-set_same p (trim test (speaking_get_queue p (output_stop s))) (output_stop s),
          output_stop-get p s,
        )
        (trim-Trimmed test (speaking_get_queue p s));
  others = λ q h. get-set_other p q _ (output_stop s) h ∙ output_stop-get q s;
}
