-- ===== src/Adapter/Ipc/Serial.antt =====
-- The calls of several tasks run one after the other: what the tasks can make of the adapter's
-- variables, a sequence of calls and moves makes of them.
use bkc_chooser.Base.{
  ℕ, Option, some, List, [], ◌∷◌, ◌≡◌, inl, inr, refl, sym, ap, ◌∙◌, ◌==◌, Bool-cases,
}
use mathlib.Core.Path.{subst}
use bkc_chooser.Adapter.Ipc.{
  Api, Tasks, Step, call, take_lock, send_msg, api_cb, take_sync, give_lock, own_move, Reachable,
  started, stepped, returned, answer_to,
}
use bkc_chooser.Adapter.Ipc.Answers.{gets_own_answer}

-- What one task alone does: it runs a message, noting for whom, or a move.
pub data Work (C O : Type 0) : Type 0 where
  message : ℕ → C → Work C O
  move : O → Work C O

module _ {C O A R : Type 0} (api : Api C O A R) where
  open api use {api_fn, own}

  -- The variables after some work, the last piece first.
  abbrev pub outcome : List (Work C O) → A → A
  outcome [] a = a
  outcome (message i f ∷ w) a = (api_fn f (outcome w a)).1
  outcome (move o ∷ w) a = own o (outcome w a)

  -- The answers that the messages get.
  abbrev pub replies : List (Work C O) → A → List (ℕ × C × R)
  replies [] a = []
  replies (message i f ∷ w) a = (i, f, (api_fn f (outcome w a)).0) ∷ replies w a
  replies (move o ∷ w) a = replies w a

  abbrev Serial : A → Tasks C A R → Type 0
  Serial a s = (w : List (Work C O)) × (s.adapter ≡ outcome w a) × (s.answers ≡ replies w a)

  Serial-Step : (a : A) (s t : Tasks C A R) → Serial a s → Step api s t → Serial a t
  Serial-Step a s t (w, x, y) (call i f h e) = rw e (w, x, y)
  Serial-Step a s t (w, x, y) (take_lock i n f p h e) = rw e (w, x, y)
  Serial-Step a s t (w, x, y) (send_msg i f h e) = rw e (w, x, y)
  Serial-Step a s t (w, x, y) (api_cb i f rest h e) =
      rw e (message i f ∷ w, rw x refl, rw (x, y) refl)
  Serial-Step a s t (w, x, y) (take_sync i n f h q e) = rw e (w, x, y)
  Serial-Step a s t (w, x, y) (give_lock i f h e) = rw e (w, x, y)
  Serial-Step a s t (w, x, y) (own_move o e) = rw e (move o ∷ w, rw x refl, y)

  Serial-Reachable : (a : A) (s : Tasks C A R) → Reachable api a s → Serial a s
  Serial-Reachable a s (started e) = rw e ([], refl, refl)
  Serial-Reachable a s (stepped {s = b} r m) = Serial-Step a b s (Serial-Reachable a b r) m

  -- A sequence of work explains the variables and what the tasks that are behind a call have got.
  abbrev pub Explained : A → Tasks C A R → Type 0
  Explained a s =
      (w : List (Work C O)) × (s.adapter ≡ outcome w a)
      × ((j : ℕ) (f : C) (v : Option R)
          → s.phase j ≡ returned f v
          → (r : R) × (v ≡ some r) × (answer_to j (replies w a) ≡ some (f, r)))

  -- In every state that tasks and lwIP's task can reach, in whatever order they run, there is a
  -- sequence of messages and moves that explains it: run one after the other, it makes the
  -- adapter's variables what they are, and a task that is behind a call has the answer that its
  -- last message in the sequence gets, which is the message of this call.
  pub runs_in_sequence : (a : A) (s : Tasks C A R) → Reachable api a s → Explained a s
  runs_in_sequence a s h =
      let (w, x, y) = Serial-Reachable a s h in
      (
        w,
        x,
        λ j f v e.
            let (r, b, c) = gets_own_answer api a s j f v h e in
            (r, b, ap (answer_to j) (sym y) ∙ c),
      )

  module _ (P : A → Type 0) (message_keeps : (f : C) (a : A) → P a → P (api_fn f a).1)
      (move_keeps : (o : O) (a : A) → P a → P (own o a)) where
    outcome_keeps : (w : List (Work C O)) (a : A) → P a → P (outcome w a)
    outcome_keeps [] a h = h
    outcome_keeps (message i f ∷ w) a h = message_keeps f (outcome w a) (outcome_keeps w a h)
    outcome_keeps (move o ∷ w) a h = move_keeps o (outcome w a) (outcome_keeps w a h)

    -- What every message and every move keeps holds in every state that the tasks can reach.
    pub Reachable_keeps : (a : A) (s : Tasks C A R) → Reachable api a s → P a → P s.adapter
    Reachable_keeps a s r h = let (w, x, y) = runs_in_sequence a s r in rw x (outcome_keeps w a h)

    module _ (Q : C → R → Type 0) (answers_well : (f : C) (a : A) → P a → Q f (api_fn f a).0) where
      replies_hold :
          (w : List (Work C O)) (a : A) (j : ℕ) (f : C) (r : R)
          → P a
          → answer_to j (replies w a) ≡ some (f, r)
          → Q f r
      replies_hold [] a j f r h e = absurd (cc e)
      replies_hold (move o ∷ w) a j f r h e = replies_hold w a j f r h e
      replies_hold (message i g ∷ w) a j f r h e = elim (Bool-cases (i == j)) [
        | inl q ↦
            let same : (g, (api_fn g (outcome w a)).0) ≡ (f, r) = cc (rw q at e) in
            subst (λ (x : C × R). Q x.0 x.1) same
              (answers_well g (outcome w a) (outcome_keeps w a h))
        | inr q ↦ replies_hold w a j f r h (rw q at e)
      ]

      -- What every message's answer is where `P` holds, a task has got behind each of its calls.
      pub returned_holds :
          (a : A) (s : Tasks C A R) (j : ℕ) (f : C) (v : Option R)
          → Reachable api a s
          → P a
          → s.phase j ≡ returned f v
          → (r : R) × (v ≡ some r) × Q f r
      returned_holds a s j f v k h e =
          let (w, x, got) = runs_in_sequence a s k in
          let (r, b, c) = got j f v e in (r, b, replies_hold w a j f r h c)
