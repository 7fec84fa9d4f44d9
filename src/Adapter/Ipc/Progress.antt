-- ===== src/Adapter/Ipc/Progress.antt =====
-- A call can always be brought to its end: no task waits for a semaphore that nobody will give.
use bkc_chooser.Base.{
  ℕ, zero, suc, ◌+◌, ◌≤◌, Bool, true, false, Option, none, some, [], ◌∷◌, ◌++◌, ◌≡◌, inl, inr, refl,
  sym, ap, ◌∙◌, ◌==◌, Bool-cases, arith,
}
use mathlib.Core.Path.{subst}
use bkc_chooser.Adapter.Ipc.{
  Api, TaskPhase, outside, waiting, leaving, calling, sending, returned, Tasks, set, is_inside,
  Step, call, take_lock, send_msg, api_cb, take_sync, give_lock, own_move, Reachable,
}
use bkc_chooser.Adapter.Ipc.Holder.{
  eq_of, set_same, set_other, Stage, Shape, before_send, sent, served, awake, free, held,
}
use bkc_chooser.Adapter.Ipc.Kept.{Kept-Reachable}

-- The message of the call that a task is in.
abbrev pub message_of : {C R : Type 0} → TaskPhase C R → Option C
message_of outside = none
message_of (calling f) = some f
message_of (sending f) = some f
message_of (waiting f) = some f
message_of (leaving f) = some f
message_of (returned f v) = none

calling_of :
    {C R : Type 0} (x : TaskPhase C R) (f : C)
    → message_of x ≡ some f
    → is_inside x ≡ false
    → x ≡ calling f
calling_of outside f h o = absurd (cc h)
calling_of (calling g) f h o = ap calling (cc h)
calling_of (sending g) f h o = absurd (cc o)
calling_of (waiting g) f h o = absurd (cc o)
calling_of (leaving g) f h o = absurd (cc o)
calling_of (returned g v) f h o = absurd (cc h)

module _ {C O A R : Type 0} (api : Api C O A R) where
  open api use {api_fn, own}

  -- Not the start of a call, and not a move beside the calls.
  abbrev pub is_handover : {s t : Tasks C A R} → Step api s t → Bool
  is_handover (call i f h e) = false
  is_handover (own_move o e) = false
  is_handover _ = true

  -- `n` steps of calls that are under way.
  abbrev pub Leads : Tasks C A R → ℕ → Tasks C A R → Type 0
  Leads s zero t = t ≡ s
  Leads s (suc n) t = (u : Tasks C A R) × (m : Step api s u) × (is_handover m ≡ true) × Leads u n t

  Leads-append : (s u t : Tasks C A R) (n k : ℕ) → Leads s n u → Leads u k t → Leads s (n + k) t
  Leads-append s u t zero k e h =
      let none_more : k ≡ 0 + k = omega arith in
      subst (λ (n : ℕ). Leads s n t) none_more (subst (λ (x : Tasks C A R). Leads x k t) e h)
  Leads-append s u t (suc n) k (v, m, o, l) h =
      let one_more : suc (n + k) ≡ suc n + k = omega arith in
      subst (λ (n : ℕ). Leads s n t) one_more (v, m, o, Leads-append v u t n k l h)

  -- The call of the task ends in `n` steps, with the semaphores given back and the other tasks
  -- where they were.
  abbrev Ends : ℕ → ℕ → C → Tasks C A R → Type 0
  Ends n i f s =
      (t : Tasks C A R) × (r : R) × Leads s n t
      × (t.phase i ≡ returned f (some r))
      × (t.api_lock_sem ≡ 1)
      × (t.api_sync_sem ≡ 0)
      × (t.mbox ≡ [])
      × ((j : ℕ) → (i == j) ≡ false → t.phase j ≡ s.phase j)

  before :
      {s u : Tasks C A R} {i : ℕ} {f : C} (n : ℕ) (m : Step api s u)
      → is_handover m ≡ true
      → ((j : ℕ) → (i == j) ≡ false → u.phase j ≡ s.phase j)
      → Ends n i f u
      → Ends (suc n) i f s
  before {u = u} n m o same (t, r, l, p, x, y, z, others) =
      (t, r, (u, m, o, l), p, x, y, z, λ j e. others j e ∙ same j e)

  leaving_ends :
      (s : Tasks C A R) (i : ℕ) (f : C) (r : R)
      → s.phase i ≡ leaving f
      → s.ret i ≡ some r
      → s.api_lock_sem ≡ 0
      → s.api_sync_sem ≡ 0
      → s.mbox ≡ []
      → Ends 1 i f s
  leaving_ends s i f r p v l y b =
      let x = returned f (s.ret i) in
      let t = record s { api_lock_sem = s.api_lock_sem + 1; phase = set i x s.phase } in
      (
        t,
        r,
        (t, give_lock i f p refl, refl, refl),
        set_same i x s.phase ∙ ap (returned f) v,
        omega (arith, l),
        y,
        b,
        λ j e. set_other i j x s.phase e,
      )

  served_ends :
      (s : Tasks C A R) (i : ℕ) (f : C) (r : R)
      → s.phase i ≡ waiting f
      → s.ret i ≡ some r
      → s.api_lock_sem ≡ 0
      → s.api_sync_sem ≡ 1
      → s.mbox ≡ []
      → Ends 2 i f s
  served_ends s i f r p v l y b =
      let u = record s { api_sync_sem = 0; phase = set i (leaving f) s.phase } in
      before 1 (take_sync i 0 f p y refl) refl (λ j e. set_other i j (leaving f) s.phase e)
        (leaving_ends u i f r (set_same i (leaving f) s.phase) v l refl b)

  sent_ends :
      (s : Tasks C A R) (i : ℕ) (f : C)
      → s.phase i ≡ waiting f
      → s.api_lock_sem ≡ 0
      → s.api_sync_sem ≡ 0
      → s.mbox ≡ (i, f) ∷ []
      → Ends 3 i f s
  sent_ends s i f p l y b =
      let r = (api_fn f s.adapter).0 in
      let u = record s {
        mbox = [];
        adapter = (api_fn f s.adapter).1;
        ret = set i (some r) s.ret;
        api_sync_sem = s.api_sync_sem + 1;
        answers = (i, f, r) ∷ s.answers;
      } in
      before 2 (api_cb i f [] b refl) refl (λ j e. refl)
        (served_ends u i f r p (set_same i (some r) s.ret) l (omega (arith, y)) refl)

  sending_ends :
      (s : Tasks C A R) (i : ℕ) (f : C)
      → s.phase i ≡ sending f
      → s.api_lock_sem ≡ 0
      → s.api_sync_sem ≡ 0
      → s.mbox ≡ []
      → Ends 4 i f s
  sending_ends s i f p l y b =
      let u = record s { mbox = s.mbox ++ (i, f) ∷ []; phase = set i (waiting f) s.phase } in
      before 3 (send_msg i f p refl) refl (λ j e. set_other i j (waiting f) s.phase e)
        (sent_ends u i f (set_same i (waiting f) s.phase) l y (rw b refl))

  calling_ends :
      (s : Tasks C A R) (i : ℕ) (f : C)
      → s.phase i ≡ calling f
      → s.api_lock_sem ≡ 1
      → s.api_sync_sem ≡ 0
      → s.mbox ≡ []
      → Ends 5 i f s
  calling_ends s i f p l y b =
      let u = record s { api_lock_sem = 0; phase = set i (sending f) s.phase } in
      before 4 (take_lock i 0 f p l refl) refl (λ j e. set_other i j (sending f) s.phase e)
        (sending_ends u i f (set_same i (sending f) s.phase) refl y b)

  -- The task that holds api_lock_sem ends its call.
  holder_ends :
      (s : Tasks C A R) (i : ℕ)
      → s.api_lock_sem ≡ 0
      → Stage i s
      → (f : C) × (n : ℕ) × (message_of (s.phase i) ≡ some f) × (n ≤ 4) × Ends n i f s
  holder_ends s i l (before_send f p y b) =
      (f, 4, rw p refl, omega arith, sending_ends s i f p l y b)
  holder_ends s i l (sent f p y b) = (f, 3, rw p refl, omega arith, sent_ends s i f p l y b)
  holder_ends s i l (served f p y b (r, v, c)) =
      (f, 2, rw p refl, omega arith, served_ends s i f r p v l y b)
  holder_ends s i l (awake f p y b (r, v, c)) =
      (f, 1, rw p refl, omega arith, leaving_ends s i f r p v l y b)

  -- What the end of one call is.
  abbrev pub Returns : ℕ → C → Tasks C A R → Type 0
  Returns i f s =
      (n : ℕ) × (t : Tasks C A R) × (r : R) × (n ≤ 9)
      × Leads s n t
      × (t.phase i ≡ returned f (some r))

  returns :
      (s : Tasks C A R) (i : ℕ) (f : C) → Shape s → message_of (s.phase i) ≡ some f → Returns i f s
  returns s i f (free l y b out) h =
      let (t, r, leads, p, x, y₁, b₁, others) =
        calling_ends s i f (calling_of (s.phase i) f h (out i)) l y b in
      (5, t, r, omega arith, leads, p)
  returns s i f (held j l al st) h =
      let (g, n, q, le, (t, r, leads, p, x, y, b, others)) = holder_ends s j l st in
      elim (Bool-cases (j == i)) [
        | inl e ↦
            let same = eq_of j i e in
            (
              n,
              t,
              r,
              omega (arith, le),
              leads,
              ap (λ (k : ℕ). t.phase k) (sym same)
                  ∙ p
                  ∙ ap (λ (c : C). returned c (some r))
                      (cc (sym q ∙ ap (λ (k : ℕ). message_of (s.phase k)) same ∙ h)),
            )
        | inr e ↦
            let stays = others i e ∙ calling_of (s.phase i) f h (al i e) in
            let (u, v, later, w, x₁, y₁, b₁, rest) = calling_ends t i f stays x y b in
            (n + 5, u, v, omega (arith, le), Leads-append s t u n 5 leads later, w)
      ]

  -- In every state that tasks and lwIP's task can reach, the call of any task that is in one can be
  -- brought to its end, with an answer, by at most nine steps of calls that are under way: no task
  -- need begin a call for it, and nothing outside the calls need happen.
  pub call_returns :
      (a : A) (s : Tasks C A R) (i : ℕ) (f : C)
      → Reachable api a s
      → message_of (s.phase i) ≡ some f
      → Returns i f s
  call_returns a s i f h e = returns s i f (Kept-Reachable api a s h).shape e
