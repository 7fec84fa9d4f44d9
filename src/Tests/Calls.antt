-- ===== src/Tests/Calls.antt =====
-- Runs of the tasks of components/tcpip_adapter: whole calls, and moves beside them.
use bkc_chooser.Base.{ℕ, ◌+◌, true, none, some, List, [], ◌∷◌, ◌++◌, ◌≡◌, refl, ap, arith}
use bkc_chooser.Adapter.Ipc.{
  Api, Tasks, calling, sending, waiting, leaving, returned, set, at_rest, call, take_lock, send_msg,
  api_cb, take_sync, give_lock, own_move, Reachable, stepped,
}
use bkc_chooser.Adapter.Ipc.Holder.{set_same}

module _ {C O A R : Type 0} (api : Api C O A R) where
  open api use {api_fn, own}

  -- A call of one task from its start to its end.
  abbrev pub called : ℕ → C → Tasks C A R → Tasks C A R
  called i f s =
      let s₁ = record s { phase = set i (calling f) s.phase; ret = set i none s.ret } in
      let s₂ = record s₁ { api_lock_sem = 0; phase = set i (sending f) s₁.phase } in
      let s₃ = record s₂ { mbox = s₂.mbox ++ (i, f) ∷ []; phase = set i (waiting f) s₂.phase } in
      let s₄ = record s₃ {
        mbox = [];
        adapter = (api_fn f s₃.adapter).1;
        ret = set i (some (api_fn f s₃.adapter).0) s₃.ret;
        api_sync_sem = s₃.api_sync_sem + 1;
        answers = (i, f, (api_fn f s₃.adapter).0) ∷ s₃.answers;
      } in
      let s₅ = record s₄ { api_sync_sem = 0; phase = set i (leaving f) s₄.phase } in
      record s₅ {
        api_lock_sem = s₅.api_lock_sem + 1;
        phase = set i (returned f (s₅.ret i)) s₅.phase;
      }

  pub called-Reachable :
      (a : A) (s : Tasks C A R) (i : ℕ) (f : C)
      → Reachable api a s
      → at_rest (s.phase i) ≡ true
      → s.api_lock_sem ≡ 1
      → s.api_sync_sem ≡ 0
      → s.mbox ≡ []
      → Reachable api a (called i f s)
  called-Reachable a s i f h r l y b =
      let s₁ = record s { phase = set i (calling f) s.phase; ret = set i none s.ret } in
      let s₂ = record s₁ { api_lock_sem = 0; phase = set i (sending f) s₁.phase } in
      let s₃ = record s₂ { mbox = s₂.mbox ++ (i, f) ∷ []; phase = set i (waiting f) s₂.phase } in
      let s₄ = record s₃ {
        mbox = [];
        adapter = (api_fn f s₃.adapter).1;
        ret = set i (some (api_fn f s₃.adapter).0) s₃.ret;
        api_sync_sem = s₃.api_sync_sem + 1;
        answers = (i, f, (api_fn f s₃.adapter).0) ∷ s₃.answers;
      } in
      let h₁ : Reachable api a s₁ = stepped h (call i f r refl) in
      let h₂ : Reachable api a s₂ =
        stepped h₁ (take_lock i 0 f (set_same i (calling f) s.phase) l refl) in
      let h₃ : Reachable api a s₃ =
        stepped h₂ (send_msg i f (set_same i (sending f) s₁.phase) refl) in
      let h₄ : Reachable api a s₄ =
        stepped h₃ (api_cb i f [] (ap (λ (x : List (ℕ × C)). x ++ (i, f) ∷ []) b) refl) in
      let h₅ =
        stepped h₄ (take_sync i 0 f (set_same i (waiting f) s₂.phase) (omega (arith, y)) refl) in
      stepped h₅ (give_lock i f (set_same i (leaving f) s₄.phase) refl)

  -- Some moves beside the calls.
  abbrev pub moved : List O → Tasks C A R → Tasks C A R
  moved [] s = s
  moved (o ∷ os) s = moved os (record s { adapter = own o s.adapter })

  pub moved-Reachable :
      (a : A) (os : List O) (s : Tasks C A R) → Reachable api a s → Reachable api a (moved os s)
  moved-Reachable a [] s h = h
  moved-Reachable a (o ∷ os) s h =
      moved-Reachable a os (record s { adapter = own o s.adapter }) (stepped h (own_move o refl))
