-- ===== src/Sched/Service/Rounds.antt =====
-- What each step of the scheduler's threads does to its tasks: snapfaas/src/sched/mod.rs,
-- snapfaas/src/sched/rpc_server.rs.
use mathlib.Core.List.{append_assoc}
use faasten.Base.{
  ℕ, ◌≡◌, refl, ap, Bool, true, false, Option, none, some, List, [], ◌∷◌, ◌++◌, All-append,
  Bool-cases, inl, inr, length-append, if◌then◌else◌, ◌==◌, number_eq, arith,
}
use faasten.Base.Dict
use faasten.Base.Dict.{Dict}
use faasten.Labels.{Labels}
use faasten.Syscall.Messages.{TaskReturn}
use faasten.Sched.Manager.{Manager}
use faasten.Sched.Consistent.{Consistent}
use faasten.Sched.Once.{Once}
use faasten.Sched.Protocol.{InvokeMessage, Sent, Encodings}
use faasten.Sched.Service.{
  Task, Thread, System, send, answer, finish, submit, queue_full, enqueue, has_room,
}
use faasten.Sched.Service.Tasks.{
  Named, Given, handed, send-IsSend, given, held, listed, IsSound, Keeps, Silent, Silent-refl,
  Silent-trans, Silent-Keeps, send-Silent, send-Keeps,
}

pub waiting-Consistent :
    (m : Manager) (w : Dict ℕ ℕ) → Consistent m → Consistent (record m { wait_list = w })
waiting-Consistent m w c = record { cached = c.cached; idle = c.idle }

pub if_true {ℓ κ} :
    {A : Type ℓ} (P : A → Type κ) (b : Bool) (x y : A) → b ≡ true → P x → P (if b then x else y)
if_true P true x y e h = h
if_true P false x y e h = cc

module _ ⦃L : Labels⦄ ⦃E : Encodings⦄ where
  pub still-Keeps : (s : System) → IsSound s → Keeps s s []
  still-Keeps s h = Silent-Keeps s s h (Silent-refl s) h.consistent h.once

  -- Another manager, or other threads.
  pub managed-Silent :
      (s : System) (m : Manager) (t : Dict ℕ Thread)
      → Silent s (record s { manager = m; threads = t })
  managed-Silent s m t = record {
    queue = refl;
    capacity = refl;
    current = refl;
    scheduling = refl;
    sent = refl;
  }

  pub managed-Keeps :
      (s : System) (m : Manager) (t : Dict ℕ Thread)
      → IsSound s
      → Consistent m
      → Once m
      → Keeps s (record s { manager = m; threads = t }) []
  managed-Keeps s m t h c o =
      Silent-Keeps s (record s { manager = m; threads = t }) h (managed-Silent s m t) c o

  answer-Keeps :
      (o : Option ℕ) (uuid : ℕ) (r : TaskReturn) (s : System)
      → IsSound s
      → Keeps s (answer o uuid r s) []
  unfolding answer
  answer-Keeps none uuid r s h = still-Keeps s h
  answer-Keeps (some conn) uuid r s h =
      let m : Manager = record s.manager { wait_list = Dict.remove uuid s.manager.wait_list } in
      let t : System = record s { manager = m } in
      let a = send-IsSend conn (Sent.result r) t in
      Silent-Keeps s (send conn (Sent.result r) t).1 h
        (Silent-trans (managed-Silent s m s.threads) (send-Silent conn (Sent.result r) t refl))
        (rw (a.manager) (waiting-Consistent s.manager _ h.consistent)) (rw (a.manager) h.once)

  pub finish-Keeps :
      (o : Option ℕ) (r : TaskReturn) (s : System) → IsSound s → Keeps s (finish o r s) []
  unfolding finish
  finish-Keeps none r s h = still-Keeps s h
  finish-Keeps (some uuid) r s h = elim (Bool-cases (uuid == 0)) [
    | inl e ↦ rw (finish, e) (still-Keeps s h)
    | inr e ↦ rw (finish, e) (answer-Keeps (Dict.get uuid s.manager.wait_list) uuid r s h)
  ]

  listed-append : (ts : List Task) (t : Task) → listed (ts ++ t ∷ []) ≡ listed ts ++ given t ∷ []
  listed-append [] t = refl
  listed-append (x ∷ ts) t = ap (λ l. given x ∷ l) (listed-append ts t)

  abbrev pub taken : ℕ → InvokeMessage → System → List Given
  taken uuid r s = if has_room s then (E.show_uuid uuid, r) ∷ [] else []

  queued-Keeps :
      (s : System) (t : Task) (threads : Dict ℕ Thread)
      → IsSound s
      → Named t.invoke
      → has_room s ≡ true
      → Keeps s (record s { queue = s.queue ++ t ∷ []; threads = threads }) (given t ∷ [])
  queued-Keeps s t threads h k room = record {
    sound = record {
      running = h.running;
      named = All-append (λ x. Named x.invoke) s.queue (t ∷ []) h.named (k, tt);
      consistent = h.consistent;
      once = h.once;
      bounded = ground (arith, room, length-append s.queue (t ∷ []));
    };
    ordered =
        rw
          (
            listed-append s.queue t,
            append_assoc (handed s.sent) (held s.current ++ listed s.queue) (given t ∷ []),
            append_assoc (held s.current) (listed s.queue) (given t ∷ []),
          )
          refl;
    capacity = refl;
  }

  enqueue-Keeps :
      (conn : ℕ) (t : Thread) (uuid : ℕ) (r : InvokeMessage) (s : System)
      → IsSound s
      → Named r
      → Keeps s (enqueue conn t uuid r s) (taken uuid r s)
  unfolding enqueue
  enqueue-Keeps conn t uuid r s h k = elim (Bool-cases (has_room s)) [
    | inl e ↦ rw e (queued-Keeps s (record { uuid = uuid; invoke = r }) _ h k e)
    | inr e ↦ rw e (send-Keeps conn (Sent.result queue_full) s refl h)
  ]

  pub submit-Keeps :
      (conn : ℕ) (t : Thread) (uuid : ℕ) (r : InvokeMessage) (s : System)
      → IsSound s
      → Named r
      → Keeps s (submit conn t uuid r s) (taken uuid r s)
  unfolding submit
  submit-Keeps conn t uuid r s h k =
      if_true (λ u. Keeps s u (taken uuid r s)) s.scheduling (enqueue conn t uuid r s) _ h.running
        (enqueue-Keeps conn t uuid r s h k)
