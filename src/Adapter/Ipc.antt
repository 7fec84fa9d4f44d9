-- ===== src/Adapter/Ipc.antt =====
-- tcpip_adapter_ipc_check and tcpip_adapter_api_cb of components/tcpip_adapter: how a call of
-- another task is handed over to lwIP's task, with the semaphores and the message box between them.
pub mod Holder
pub mod Kept
pub mod Answers
pub mod Serial
pub mod Progress
pub mod Ready
pub mod Losses
pub mod Own
use bkc_chooser.Base.{
  ℕ, ◌+◌, Bool, true, false, Option, none, some, List, [], ◌∷◌, ◌++◌, ◌≡◌, ◌==◌, if◌then◌else◌,
}

-- The messages `C`: `api_fn` of a message runs on the adapter's variables `A` and gives `msg->ret`.
-- What changes the variables outside the message box, on any task: the moves `O`.
pub record Api (C O A R : Type 0) : Type 0 where
  pub api_fn : C → A → R × A
  pub own : O → A → A

module _ (C R : Type 0) where
  -- Where a task stands: outside any call; with its message built, before api_lock_sem; behind it,
  -- before the message is sent; before api_sync_sem; behind it, before api_lock_sem is given back;
  -- and behind the call, with `msg.ret`, which is `none` as memset leaves it. The message is the
  -- task's own until the call ends.
  pub data TaskPhase : Type 0 where
    outside : TaskPhase
    calling sending waiting leaving : C → TaskPhase
    returned : C → Option R → TaskPhase

module _ (C A R : Type 0) where
  -- The semaphores, lwIP's message box, the tasks and the fields `ret` of their messages, the
  -- adapter, and a record of what lwIP's task answered to which message, the last answer first.
  pub record Tasks : Type 0 where
    pub api_lock_sem : ℕ
    pub api_sync_sem : ℕ
    pub mbox : List (ℕ × C)
    pub phase : ℕ → TaskPhase C R
    pub ret : ℕ → Option R
    pub adapter : A
    pub answers : List (ℕ × C × R)

abbrev pub set : {X : Type 0} → ℕ → X → (ℕ → X) → ℕ → X
set i x f j = if i == j then x else f j

-- The last message of a task that was answered, and the answer.
abbrev pub answer_to : {C R : Type 0} → ℕ → List (ℕ × C × R) → Option (C × R)
answer_to i [] = none
answer_to i ((j, f, r) ∷ log) = if j == i then some (f, r) else answer_to i log

module _ {C R : Type 0} where
  abbrev pub is_inside : TaskPhase C R → Bool
  is_inside (sending f) = true
  is_inside (waiting f) = true
  is_inside (leaving f) = true
  is_inside _ = false

  abbrev pub at_rest : TaskPhase C R → Bool
  at_rest outside = true
  at_rest (returned f v) = true
  at_rest _ = false

-- The semaphores as tcpip_adapter_init makes them, and no task in a call.
abbrev pub at_init : {C A R : Type 0} → A → Tasks C A R
at_init a = record {
  api_lock_sem = 1;
  api_sync_sem = 0;
  mbox = [];
  phase = λ i. outside;
  ret = λ i. none;
  adapter = a;
  answers = [];
}

module _ {C O A R : Type 0} (m : Api C O A R) where
  open m use {api_fn, own}

  -- The steps of the tasks and of lwIP's task, which serves the message box.
  pub data Step (s t : Tasks C A R) : Type 0 where
    call :
        (i : ℕ) (f : C)
        → at_rest (s.phase i) ≡ true
        → t ≡ record s { phase = set i (calling f) s.phase; ret = set i none s.ret }
        → Step s t
    take_lock :
        (i n : ℕ) (f : C)
        → s.phase i ≡ calling f
        → s.api_lock_sem ≡ n + 1
        → t ≡ record s { api_lock_sem = n; phase = set i (sending f) s.phase }
        → Step s t
    send_msg :
        (i : ℕ) (f : C)
        → s.phase i ≡ sending f
        → t ≡ record s { mbox = s.mbox ++ (i, f) ∷ []; phase = set i (waiting f) s.phase }
        → Step s t
    api_cb :
        (i : ℕ) (f : C) (rest : List (ℕ × C))
        → s.mbox ≡ (i, f) ∷ rest
        → t ≡ record s {
          mbox = rest;
          adapter = (api_fn f s.adapter).1;
          ret = set i (some (api_fn f s.adapter).0) s.ret;
          api_sync_sem = s.api_sync_sem + 1;
          answers = (i, f, (api_fn f s.adapter).0) ∷ s.answers;
        }
        → Step s t
    take_sync :
        (i n : ℕ) (f : C)
        → s.phase i ≡ waiting f
        → s.api_sync_sem ≡ n + 1
        → t ≡ record s { api_sync_sem = n; phase = set i (leaving f) s.phase }
        → Step s t
    give_lock :
        (i : ℕ) (f : C)
        → s.phase i ≡ leaving f
        → t ≡ record s {
          api_lock_sem = s.api_lock_sem + 1;
          phase = set i (returned f (s.ret i)) s.phase;
        }
        → Step s t
    own_move : (o : O) → t ≡ record s { adapter = own o s.adapter } → Step s t

  pub data Reachable (a : A) : Tasks C A R → Type 0 where
    started : {s : Tasks C A R} → s ≡ at_init a → Reachable a s
    stepped : {s t : Tasks C A R} → Reachable a s → Step s t → Reachable a t
