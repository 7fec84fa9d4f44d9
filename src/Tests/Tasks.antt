-- ===== src/Tests/Tasks.antt =====
-- Two tasks that call the adapter at the same time: components/tcpip_adapter.
use bkc_chooser.Base.{ℕ, Bool, if◌then◌else◌, ◌+◌, refl, none, some, [], ◌∷◌}
use bkc_chooser.Adapter.Ipc.{
  Api, calling, sending, waiting, leaving, returned, Tasks, set, call, take_lock, send_msg, api_cb,
  take_sync, give_lock, at_init, Reachable, started, stepped,
}
use bkc_chooser.Adapter.Ipc.Serial.{Explained, runs_in_sequence}
use bkc_chooser.Adapter.Ipc.Progress.{Returns, call_returns}

-- The variables are a number; a call answers it and adds to it, and a move of
-- another task doubles it.
abbrev adding : Api ℕ Bool ℕ ℕ
adding = record { api_fn = λ n a. (a, a + n); own = λ b a. if b then a + a else a }

abbrev s₀ : Tasks ℕ ℕ ℕ
s₀ = at_init 10

abbrev s₁ : Tasks ℕ ℕ ℕ
s₁ = record s₀ { phase = set 1 (calling 5) s₀.phase; ret = set 1 none s₀.ret }

abbrev s₂ : Tasks ℕ ℕ ℕ
s₂ = record s₁ { phase = set 2 (calling 7) s₁.phase; ret = set 2 none s₁.ret }

abbrev s₃ : Tasks ℕ ℕ ℕ
s₃ = record s₂ { api_lock_sem = 0; phase = set 2 (sending 7) s₂.phase }

abbrev s₄ : Tasks ℕ ℕ ℕ
s₄ = record s₃ { mbox = (2, 7) ∷ []; phase = set 2 (waiting 7) s₃.phase }

abbrev s₅ : Tasks ℕ ℕ ℕ
s₅ = record s₄ {
  mbox = [];
  adapter = 17;
  ret = set 2 (some 10) s₄.ret;
  api_sync_sem = 1;
  answers = (2, 7, 10) ∷ [];
}

abbrev s₆ : Tasks ℕ ℕ ℕ
s₆ = record s₅ { api_sync_sem = 0; phase = set 2 (leaving 7) s₅.phase }

abbrev s₇ : Tasks ℕ ℕ ℕ
s₇ = record s₆ { api_lock_sem = 1; phase = set 2 (returned 7 (some 10)) s₆.phase }

s₀-Reachable : Reachable adding 10 s₀
s₀-Reachable = started refl

s₁-Reachable : Reachable adding 10 s₁
s₁-Reachable = stepped s₀-Reachable (call 1 5 refl refl)

s₂-Reachable : Reachable adding 10 s₂
s₂-Reachable = stepped s₁-Reachable (call 2 7 refl refl)

s₃-Reachable : Reachable adding 10 s₃
s₃-Reachable = stepped s₂-Reachable (take_lock 2 0 7 refl refl refl)

s₄-Reachable : Reachable adding 10 s₄
s₄-Reachable = stepped s₃-Reachable (send_msg 2 7 refl refl)

s₅-Reachable : Reachable adding 10 s₅
s₅-Reachable = stepped s₄-Reachable (api_cb 2 7 [] refl refl)

s₆-Reachable : Reachable adding 10 s₆
s₆-Reachable = stepped s₅-Reachable (take_sync 2 0 7 refl refl refl)

s₇-Reachable : Reachable adding 10 s₇
s₇-Reachable = stepped s₆-Reachable (give_lock 2 7 refl refl)

-- Task 1 waits for the semaphore that task 2 holds.
call_returns_example : Returns adding 1 5 s₃
call_returns_example = call_returns adding 10 s₃ 1 5 s₃-Reachable refl

runs_in_sequence_example : Explained adding 10 s₇
runs_in_sequence_example = runs_in_sequence adding 10 s₇ s₇-Reachable
