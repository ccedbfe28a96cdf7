-- ===== src/Fs/Calls/Rises.antt =====
-- Floating labels: whatever the calls, the current label only rises and the privilege stays.
use faasten.Base.{◌≡◌, refl, ◌∙◌, true, List}
use faasten.Labels.{Labels, can_flow_to}
use faasten.Fs.World.{Serde, World, settle}
use faasten.Fs.World.Steps.{Policy}
use faasten.Fs.Calls.{FsCall, run_calls, run_calls_keeps}

module _ ⦃L : Labels⦄ ⦃S : Serde⦄ where
  pub record Rises (u v : World) : Type 0 where
    pub rises : can_flow_to u.label v.label ≡ true
    pub privilege_kept : v.privilege ≡ u.privilege

  pub Rises-refl : (w : World) → Rises w w
  Rises-refl w = record { rises = L.flows_refl w.label; privilege_kept = refl }

  pub Rises-trans : (u v w : World) → Rises u v → Rises v w → Rises u w
  Rises-trans u v w h k = record {
    rises = L.flows_trans u.label v.label w.label h.rises k.rises;
    privilege_kept = k.privilege_kept ∙ h.privilege_kept;
  }

  pub settle-Rises : (w : World) → Rises w (settle w)
  unfolding settle
  settle-Rises w = record { rises = L.flows_refl w.label; privilege_kept = refl }

  unfoldable pub rises_policy : Policy
  rises_policy = record {
    R = Rises;
    refl_at = Rises-refl;
    trans_at = Rises-trans;
    on_settle = settle-Rises;
    on_write = λ w k v. record { rises = L.flows_refl w.label; privilege_kept = refl };
    on_draw = λ w d. record { rises = L.flows_refl w.label; privilege_kept = refl };
    on_taint = λ w l. record { rises = L.join_right l w.label; privilege_kept = refl };
    on_raise = λ w l. record { rises = L.join_left w.label l; privilege_kept = refl };
  }

  -- Whatever calls of the file system a thread makes, and whatever other threads write meanwhile,
  -- the thread's current label only rises and its privilege stays as it was, also when calls fail.
  pub run_calls-Rises : (cs : List FsCall) (w : World) → Rises w (run_calls cs w)
  unfolding rises_policy
  run_calls-Rises cs w = run_calls_keeps rises_policy cs w
