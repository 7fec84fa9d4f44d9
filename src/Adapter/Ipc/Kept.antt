-- ===== src/Adapter/Ipc/Kept.antt =====
-- Every step of the tasks and of lwIP's task keeps that one task at most is between the semaphores,
-- and what it and the tasks behind their calls have got.
use bkc_chooser.Base.{
  ℕ, ◌+◌, true, Option, none, some, List, [], ◌∷◌, ◌++◌, ◌≡◌, inl, inr, refl, sym, ap, ◌∙◌, ◌==◌,
  Bool-cases, arith,
}
use mathlib.Core.Path.{subst}
use bkc_chooser.Adapter.Ipc.{
  Api, TaskPhase, waiting, leaving, calling, sending, returned, Tasks, set, at_rest, answer_to,
  Step, call, take_lock, send_msg, api_cb, take_sync, give_lock, own_move, at_init, Reachable,
  started, stepped,
}
use bkc_chooser.Adapter.Ipc.Holder.{
  eq_self, eq_of, set_same, set_other, Alone, Answered, Stage, Shape, Kept, inside_of_stage, holder,
  apart, outside_set, returned_set, rest_outside, Stage-keeps, before_send, sent, served, awake,
  free, held,
}

module _ {C O A R : Type 0} (api : Api C O A R) where
  open api use {api_fn, own}

  Kept-call :
      (s : Tasks C A R) (i : ℕ) (f : C)
      → Kept s
      → at_rest (s.phase i) ≡ true
      → Kept (record s { phase = set i (calling f) s.phase; ret = set i none s.ret })
  Kept-call s i f k h =
      let out = rest_outside (s.phase i) h in
      record {
        shape = elim k.shape [
          | free l y m o ↦ free l y m (λ j. outside_set i j (calling f) s.phase refl (o j))
          | held n l al st ↦
              let other = apart i n s out (inside_of_stage n s st) in
              held n l (λ j e. outside_set i j (calling f) s.phase refl (al j e))
                (Stage-keeps n s
                  (record s { phase = set i (calling f) s.phase; ret = set i none s.ret })
                  (set_other i n (calling f) s.phase other) (set_other i n none s.ret other) refl
                  refl refl st)
        ];
        got = λ j g v e. k.got j g v (returned_set i j (calling f) s.phase g v refl e);
      }

  Kept-take_lock :
      (s : Tasks C A R) (i n : ℕ) (f : C)
      → Kept s
      → s.api_lock_sem ≡ n + 1
      → Kept (record s { api_lock_sem = n; phase = set i (sending f) s.phase })
  Kept-take_lock s i n f k h = record {
    shape = elim k.shape [
      | free l y m o ↦
          held i (omega (arith, l, h)) (λ j e. rw (set_other i j (sending f) s.phase e) (o j))
            (before_send f (set_same i (sending f) s.phase) y m)
      | held q l al st ↦ absurd (omega (arith, l, h))
    ];
    got = λ j g v e. k.got j g v (returned_set i j (sending f) s.phase g v refl e);
  }

  Kept-send_msg :
      (s : Tasks C A R) (i : ℕ) (f : C)
      → Kept s
      → s.phase i ≡ sending f
      → Kept (record s { mbox = s.mbox ++ (i, f) ∷ []; phase = set i (waiting f) s.phase })
  Kept-send_msg s i f k h =
      let (l, al, st) = holder i s k.shape (rw h refl) in
      record {
        shape =
            held i l (λ j e. rw (set_other i j (waiting f) s.phase e) (al j e))
              (elim st [
                | before_send g p y m ↦
                    sent f (set_same i (waiting f) s.phase) y
                      (ap (λ (b : List (ℕ × C)). b ++ (i, f) ∷ []) m)
                | sent g p y m ↦ absurd (cc (h, p))
                | served g p y m a ↦ absurd (cc (h, p))
                | awake g p y m a ↦ absurd (cc (h, p))
              ]);
        got = λ j g v e. k.got j g v (returned_set i j (waiting f) s.phase g v refl e);
      }

  Kept-take_sync :
      (s : Tasks C A R) (i n : ℕ) (f : C)
      → Kept s
      → s.phase i ≡ waiting f
      → s.api_sync_sem ≡ n + 1
      → Kept (record s { api_sync_sem = n; phase = set i (leaving f) s.phase })
  Kept-take_sync s i n f k h q =
      let (l, al, st) = holder i s k.shape (rw h refl) in
      record {
        shape =
            held i l (λ j e. rw (set_other i j (leaving f) s.phase e) (al j e))
              (elim st [
                | before_send g p y m ↦ absurd (omega (arith, y, q))
                | sent g p y m ↦ absurd (omega (arith, y, q))
                | served g p y m a ↦
                    awake f (set_same i (leaving f) s.phase) (omega (arith, y, q)) m
                      (subst (λ (x : C). Answered i x s) (cc (p, h)) a)
                | awake g p y m a ↦ absurd (omega (arith, y, q))
              ]);
        got = λ j g v e. k.got j g v (returned_set i j (leaving f) s.phase g v refl e);
      }

  abbrev ahead : List (ℕ × C) → ℕ
  ahead [] = 0
  ahead ((i, f) ∷ b) = i

  abbrev behind : List (ℕ × C) → List (ℕ × C)
  behind [] = []
  behind (x ∷ b) = b

  -- The message that lwIP's task takes is that of the holder, and the only one.
  pub message :
      (s : Tasks C A R) (i : ℕ) (f : C) (rest : List (ℕ × C))
      → Shape s
      → s.mbox ≡ (i, f) ∷ rest
      → (s.api_lock_sem ≡ 0)
        × Alone i s
        × (s.phase i ≡ waiting f)
        × (s.api_sync_sem ≡ 0)
        × (rest ≡ [])
  message s i f rest (free l y m o) h = absurd (cc (m, h))
  message s i f rest (held n l al (before_send g p y m)) h = absurd (cc (m, h))
  message s i f rest (held n l al (served g p y m a)) h = absurd (cc (m, h))
  message s i f rest (held n l al (awake g p y m a)) h = absurd (cc (m, h))
  message s i f rest (held n l al (sent g p y m)) h =
      let e : n ≡ i = ap ahead (sym m ∙ h) in
      (l, subst (λ (j : ℕ). Alone j s) e al, cc (ap s.phase e, p, m, h), y, ap behind (sym h ∙ m))

  Kept-api_cb :
      (s : Tasks C A R) (i : ℕ) (f : C) (rest : List (ℕ × C))
      → Kept s
      → s.mbox ≡ (i, f) ∷ rest
      → Kept (record s {
        mbox = rest;
        adapter = (api_fn f s.adapter).1;
        ret = set i (some (api_fn f s.adapter).0) s.ret;
        api_sync_sem = s.api_sync_sem + 1;
        answers = (i, f, (api_fn f s.adapter).0) ∷ s.answers;
      })
  Kept-api_cb s i f rest k h =
      let (l, al, p, y, m) = message s i f rest k.shape h in
      let r = (api_fn f s.adapter).0 in
      record {
        shape =
            held i l al
              (served f p (omega (arith, y)) m (r, set_same i (some r) s.ret, rw (eq_self i) refl));
        got = λ j g v e. elim (Bool-cases (i == j)) [
          | inl q ↦ absurd (cc (ap s.phase (eq_of i j q), p, e))
          | inr q ↦ rw q (k.got j g v e)
        ];
      }

  released :
      (i : ℕ) (f : C) (s : Tasks C A R)
      → Stage i s
      → s.phase i ≡ leaving f
      → (s.api_sync_sem ≡ 0) × (s.mbox ≡ []) × Answered i f s
  released i f s (before_send g p y m) h = absurd (cc (p, h))
  released i f s (sent g p y m) h = absurd (cc (p, h))
  released i f s (served g p y m a) h = absurd (cc (p, h))
  released i f s (awake g p y m a) h = (y, m, subst (λ (x : C). Answered i x s) (cc (p, h)) a)

  abbrev value : TaskPhase C R → Option R
  value (returned f v) = v
  value _ = none

  Kept-give_lock :
      (s : Tasks C A R) (i : ℕ) (f : C)
      → Kept s
      → s.phase i ≡ leaving f
      → Kept (record s {
        api_lock_sem = s.api_lock_sem + 1;
        phase = set i (returned f (s.ret i)) s.phase;
      })
  Kept-give_lock s i f k h =
      let (l, al, st) = holder i s k.shape (rw h refl) in
      let (y, m, (r, b, c)) = released i f s st h in
      record {
        shape =
            free (omega (arith, l)) y m
              (λ j. elim (Bool-cases (i == j)) [ inl q ↦ rw q refl | inr q ↦ rw q (al j q) ]);
        got = λ j g v e. elim (Bool-cases (i == j)) [
          | inl q ↦ (
            r,
            sym (ap value (rw q at e)) ∙ b,
            ap (λ (n : ℕ). answer_to n s.answers) (sym (eq_of i j q))
                ∙ c
                ∙ ap (λ (x : C). some (x, r)) (cc (rw q at e)),
          )
          | inr q ↦ k.got j g v (rw q at e)
        ];
      }

  Kept-own_move : (s : Tasks C A R) (o : O) → Kept s → Kept (record s { adapter = own o s.adapter })
  Kept-own_move s o k = record {
    shape = elim k.shape [
      | free l y b out ↦ free l y b out
      | held i l al st ↦
          held i l al
            (Stage-keeps i s (record s { adapter = own o s.adapter }) refl refl refl refl refl st)
    ];
    got = k.got;
  }

  Kept-Step : (s t : Tasks C A R) → Kept s → Step api s t → Kept t
  Kept-Step s t k (call i f h e) = rw e (Kept-call s i f k h)
  Kept-Step s t k (take_lock i n f p h e) = rw e (Kept-take_lock s i n f k h)
  Kept-Step s t k (send_msg i f h e) = rw e (Kept-send_msg s i f k h)
  Kept-Step s t k (api_cb i f rest h e) = rw e (Kept-api_cb s i f rest k h)
  Kept-Step s t k (take_sync i n f h q e) = rw e (Kept-take_sync s i n f k h q)
  Kept-Step s t k (give_lock i f h e) = rw e (Kept-give_lock s i f k h)
  Kept-Step s t k (own_move o e) = rw e (Kept-own_move s o k)

  Kept-at_init : (a : A) → Kept (at_init {C = C} {R = R} a)
  Kept-at_init a = record {
    shape = free refl refl refl (λ j. refl);
    got = λ j g v e. absurd (cc e);
  }

  pub Kept-Reachable : (a : A) (s : Tasks C A R) → Reachable api a s → Kept s
  Kept-Reachable a s (started e) = rw e (Kept-at_init a)
  Kept-Reachable a s (stepped {s = b} r m) = Kept-Step b s (Kept-Reachable a b r) m
