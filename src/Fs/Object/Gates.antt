-- ===== src/Fs/Object/Gates.antt =====
-- Chains of redirect gates, and what invoking the gate at their end may do.
use faasten.Base.{ℕ, zero, suc, ◌<◌, ◌≡◌, refl, some, List, [], ◌∷◌, arith, length}
use faasten.Labels.{Labels, Component, Buckle, dc_true, ◌&◌}
use faasten.Fs.Types.{
  Item, Kind, GateRef, Labeled, Gate, direct, redirect, DirectGate, RedirectGate,
}
use faasten.Fs.World.{Serde, ok, diverges, World, ◌>>=◌, Store}
use faasten.Fs.Object.Core.{unlabel}
use faasten.Fs.Object.Contents.{resolve_loop, gate_to_invokable}
use faasten.Fs.Object.Directory.{alone, Has, tainted, get_labeled-Has}

module _ ⦃L : Labels⦄ ⦃S : Serde⦄ where
  -- Stored gates lead from the gate through the redirect gates to the direct gate.
  pub data Leads (st : Store) : Gate → List RedirectGate → DirectGate → Type 0 where
    ends : {g : DirectGate} → Leads st (direct g) [] g
    hops :
        {g : DirectGate} {reds : List RedirectGate} (red : RedirectGate) (next : Labeled Gate)
        → st red.gate.uid ≡ some (S.to_vec (Kind.labeled Item.gate) next)
        → Leads st next.contents reds g
        → Leads st (redirect red) (red ∷ reds) g

  -- What is accumulated along the redirect gates.
  abbrev pub along : (RedirectGate → Component) → Component → List RedirectGate → Component
  along f acc [] = acc
  along f acc (red ∷ reds) = along f (acc & f red) reds

  abbrev pub accumulated :
      Component → Component → Component → List RedirectGate → DirectGate → DirectGate
  accumulated p c d reds g = record {
    privilege = along (λ r. r.privilege) p reds & g.privilege;
    invoker_integrity_clearance =
        along (λ r. r.invoker_integrity_clearance) c reds & g.invoker_integrity_clearance;
    declassify = along (λ r. r.declassify) d reds;
    function = g.function;
  }

  resolve_loop_lem :
      (n : ℕ) (w : World) (cur : Gate) (reds : List RedirectGate) (g : DirectGate)
      → Leads w.store cur reds g
      → length reds < n
      → (p c d : Component) → (resolve_loop n cur p c d (alone w)).0 ≡ ok (accumulated p c d reds g)
  unfolding resolve_loop unlabel ◌>>=◌
  resolve_loop_lem zero w cur reds g _ k p c d = elim k [ ]
  resolve_loop_lem (suc n) w (direct _) (_ ∷ reds) g h k p c d = elim h [ ]
  resolve_loop_lem (suc n) w (redirect _) [] g h k p c d = elim h [ ]
  resolve_loop_lem (suc n) w (direct _) [] g ends k p c d = refl
  resolve_loop_lem (suc n) w (redirect _) (_ ∷ reds) g (hops red next h leads) k p c d =
      rw (get_labeled-Has w red.gate next h) (
        resolve_loop_lem n (tainted next.label w) next.contents reds g leads (omega arith)
          (p & red.privilege) (c & red.invoker_integrity_clearance) (d & red.declassify))

  -- A gate whose redirect gates lead to a direct gate is resolved to that direct gate's function,
  -- within any number of rounds above the number of redirect gates. Its privilege, its clearance
  -- and its declassification are the conjunctions of those of the gates on the way; the direct
  -- gate's own declassification is not among them.
  pub gate_to_invokable_lem :
      (rounds : ℕ) (w : World) (r : GateRef) (gate : Labeled Gate) (reds : List RedirectGate)
      (g : DirectGate)
      → Has w r gate
      → Leads w.store gate.contents reds g
      → length reds < rounds
      → (gate_to_invokable rounds r (alone w)).0 ≡ ok (accumulated dc_true dc_true dc_true reds g)
  unfolding gate_to_invokable unlabel ◌>>=◌
  gate_to_invokable_lem rounds w r gate reds g h leads k = rw (get_labeled-Has w r gate h) (
      resolve_loop_lem rounds (tainted gate.label w) gate.contents reds g leads k dc_true dc_true
        dc_true)

  resolve_loop-circular :
      (n : ℕ) (w : World) (l : Buckle) (red : RedirectGate)
      → Has w red.gate (record { label = l; contents = redirect red })
      → (p c d : Component) → (resolve_loop n (redirect red) p c d (alone w)).0 ≡ diverges
  unfolding resolve_loop unlabel ◌>>=◌
  resolve_loop-circular zero w l red h p c d = refl
  resolve_loop-circular (suc n) w l red h p c d =
      rw (get_labeled-Has w red.gate (record { label = l; contents = redirect red }) h) (
        resolve_loop-circular n (tainted l w) l red h (p & red.privilege)
          (c & red.invoker_integrity_clearance) (d & red.declassify))

  -- A redirect gate that names itself is never resolved: whatever number of rounds is allowed, the
  -- loop has not ended after them.
  pub gate_to_invokable-circular :
      (rounds : ℕ) (w : World) (l : Buckle) (red : RedirectGate)
      → Has w red.gate (record { label = l; contents = redirect red })
      → (gate_to_invokable rounds red.gate (alone w)).0 ≡ diverges
  unfolding gate_to_invokable unlabel ◌>>=◌
  gate_to_invokable-circular rounds w l red h =
      rw (get_labeled-Has w red.gate (record { label = l; contents = redirect red }) h)
        (resolve_loop-circular rounds (tainted l w) l red h dc_true dc_true dc_true)
