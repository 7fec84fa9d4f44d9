-- ===== src/Adapter/Ipc/Holder.antt =====
-- The task that holds api_lock_sem, and how far its call is.
use bkc_chooser.Base.{
  ℕ, Bool, true, false, Option, some, [], ◌∷◌, ◌≡◌, inl, inr, refl, ap, ◌∙◌, ◌==◌, Bool-cases,
  arith,
}
use mathlib.Core.Path.{subst}
use bkc_chooser.Adapter.Ipc.{
  TaskPhase, waiting, leaving, sending, returned, Tasks, set, is_inside, at_rest, answer_to,
}

pub eq_self : (i : ℕ) → (i == i) ≡ true
eq_self i = ground arith

pub eq_of : (i j : ℕ) → (i == j) ≡ true → i ≡ j
eq_of i j h = ground (arith, h)

pub set_same : {X : Type 0} (i : ℕ) (x : X) (f : ℕ → X) → set i x f i ≡ x
set_same i x f = rw (eq_self i) refl

pub set_other : {X : Type 0} (i j : ℕ) (x : X) (f : ℕ → X) → (i == j) ≡ false → set i x f j ≡ f j
set_other i j x f h = rw h refl

module _ {C R : Type 0} where
  pub outside_set :
      (i j : ℕ) (x : TaskPhase C R) (f : ℕ → TaskPhase C R)
      → is_inside x ≡ false
      → is_inside (f j) ≡ false
      → is_inside (set i x f j) ≡ false
  outside_set i j x f o h = elim (Bool-cases (i == j)) [ inl e ↦ rw e o | inr e ↦ rw e h ]

  abbrev is_returned : TaskPhase C R → Bool
  is_returned (returned f v) = true
  is_returned _ = false

  pub returned_set :
      (i j : ℕ) (x : TaskPhase C R) (f : ℕ → TaskPhase C R) (g : C) (v : Option R)
      → is_returned x ≡ false
      → set i x f j ≡ returned g v
      → f j ≡ returned g v
  returned_set i j x f g v n h = elim (Bool-cases (i == j)) [
    | inl e ↦ absurd (cc (ap is_returned (rw e at h), n))
    | inr e ↦ rw e at h
  ]

  pub rest_outside : (x : TaskPhase C R) → at_rest x ≡ true → is_inside x ≡ false
  rest_outside x h = ground (arith, h)

module _ {C A R : Type 0} where
  -- Another task is outside the part between the semaphores.
  abbrev pub Alone : ℕ → Tasks C A R → Type 0
  Alone i s = (j : ℕ) → (i == j) ≡ false → is_inside (s.phase j) ≡ false

  -- The last message of the task that was answered is `f`, and its `ret` holds the answer.
  abbrev pub Answered : ℕ → C → Tasks C A R → Type 0
  Answered i f s = (r : R) × (s.ret i ≡ some r) × (answer_to i s.answers ≡ some (f, r))

  -- How far the call of the task that holds api_lock_sem is.
  pub data Stage (i : ℕ) (s : Tasks C A R) : Type 0 where
    before_send : (f : C) → s.phase i ≡ sending f → s.api_sync_sem ≡ 0 → s.mbox ≡ [] → Stage i s
    sent : (f : C) → s.phase i ≡ waiting f → s.api_sync_sem ≡ 0 → s.mbox ≡ (i, f) ∷ [] → Stage i s
    served :
        (f : C)
        → s.phase i ≡ waiting f
        → s.api_sync_sem ≡ 1
        → s.mbox ≡ []
        → Answered i f s
        → Stage i s
    awake :
        (f : C)
        → s.phase i ≡ leaving f
        → s.api_sync_sem ≡ 0
        → s.mbox ≡ []
        → Answered i f s
        → Stage i s

  pub data Shape (s : Tasks C A R) : Type 0 where
    free :
        s.api_lock_sem ≡ 1
        → s.api_sync_sem ≡ 0
        → s.mbox ≡ []
        → ((j : ℕ) → is_inside (s.phase j) ≡ false)
        → Shape s
    held : (i : ℕ) → s.api_lock_sem ≡ 0 → Alone i s → Stage i s → Shape s

  -- What a task that is behind its call has got.
  abbrev pub GotAnswer : Tasks C A R → Type 0
  GotAnswer s =
      (j : ℕ) (f : C) (v : Option R)
      → s.phase j ≡ returned f v
      → (r : R) × (v ≡ some r) × (answer_to j s.answers ≡ some (f, r))

  pub record Kept (s : Tasks C A R) : Type 0 where
    pub shape : Shape s
    pub got : GotAnswer s

  pub inside_of_stage : (i : ℕ) (s : Tasks C A R) → Stage i s → is_inside (s.phase i) ≡ true
  inside_of_stage i s (before_send f p y m) = rw p refl
  inside_of_stage i s (sent f p y m) = rw p refl
  inside_of_stage i s (served f p y m a) = rw p refl
  inside_of_stage i s (awake f p y m a) = rw p refl

  owner : (i j : ℕ) (s : Tasks C A R) → Alone i s → is_inside (s.phase j) ≡ true → i ≡ j
  owner i j s al h = elim (Bool-cases (i == j)) [
    | inl e ↦ eq_of i j e
    | inr e ↦ absurd (cc (al j e, h))
  ]

  abbrev Holds : ℕ → Tasks C A R → Type 0
  Holds i s = (s.api_lock_sem ≡ 0) × Alone i s × Stage i s

  pub holder : (i : ℕ) (s : Tasks C A R) → Shape s → is_inside (s.phase i) ≡ true → Holds i s
  holder i s (free l y m out) h = absurd (cc (out i, h))
  holder i s (held k l al st) h = subst (λ (n : ℕ). Holds n s) (owner k i s al h) (l, al, st)

  pub apart :
      (i j : ℕ) (s : Tasks C A R)
      → is_inside (s.phase i) ≡ false
      → is_inside (s.phase j) ≡ true
      → (i == j) ≡ false
  apart i j s o h = elim (Bool-cases (i == j)) [
    | inl e ↦ absurd (cc (ap (λ (n : ℕ). is_inside (s.phase n)) (eq_of i j e), o, h))
    | inr e ↦ e
  ]

  pub Stage-keeps :
      (i : ℕ) (s t : Tasks C A R)
      → t.phase i ≡ s.phase i
      → t.ret i ≡ s.ret i
      → t.api_sync_sem ≡ s.api_sync_sem
      → t.mbox ≡ s.mbox
      → t.answers ≡ s.answers
      → Stage i s
      → Stage i t
  Stage-keeps i s t p r y m a (before_send f q z n) = before_send f (p ∙ q) (y ∙ z) (m ∙ n)
  Stage-keeps i s t p r y m a (sent f q z n) = sent f (p ∙ q) (y ∙ z) (m ∙ n)
  Stage-keeps i s t p r y m a (served f q z n (v, b, c)) =
      served f (p ∙ q) (y ∙ z) (m ∙ n) (v, r ∙ b, ap (answer_to i) a ∙ c)
  Stage-keeps i s t p r y m a (awake f q z n (v, b, c)) =
      awake f (p ∙ q) (y ∙ z) (m ∙ n) (v, r ∙ b, ap (answer_to i) a ∙ c)
