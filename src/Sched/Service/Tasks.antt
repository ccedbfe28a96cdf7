-- ===== src/Sched/Service/Tasks.antt =====
-- The order of tasks: snapfaas/src/sched/mod.rs, snapfaas/src/sched/rpc_server.rs.
use mathlib.Core.List.{append-nil, append_assoc}
use faasten.Base.{
  ℕ, String, ◌≡◌, refl, sym, ◌∙◌, Bool, true, false, Option, none, some, List, [], ◌∷◌, ◌++◌,
  length, All, is_some, ◌≤◌, if◌then◌else◌, number_eq,
}
use faasten.Labels.{Labels}
use faasten.Fs.Types.{Function}
use faasten.Sched.Consistent.{Consistent}
use faasten.Sched.Once.{Once}
use faasten.Sched.Protocol.{InvokeMessage, SchedResponse, Sent, Encodings}
use faasten.Sched.Service.{Task, System, send}

module _ ⦃L : Labels⦄ where
  abbrev pub Named : InvokeMessage → Type 0
  Named r = is_some r.function ≡ true

  -- A task as a worker gets it.
  abbrev pub Given : Type 0
  Given = String × InvokeMessage

  abbrev pub task_in : Sent → List Given
  task_in (Sent.response (SchedResponse.process_task id (some r))) = (id, r) ∷ []
  task_in _ = []

  -- The tasks that were written to workers.
  abbrev pub handed : List (ℕ × Sent) → List Given
  handed [] = []
  handed ((conn, msg) ∷ rest) = task_in msg ++ handed rest

  handed-append : (xs ys : List (ℕ × Sent)) → handed (xs ++ ys) ≡ handed xs ++ handed ys
  handed-append [] ys = refl
  handed-append ((conn, msg) ∷ xs) ys =
      rw (handed-append xs ys, append_assoc (task_in msg) (handed xs) (handed ys)) refl

  -- What `send` leaves alone, and what it adds.
  pub record IsSend (conn : ℕ) (msg : Sent) (s : System) (r : Bool × System) : Type 0 where
    pub manager : r.1.manager ≡ s.manager
    pub queue : r.1.queue ≡ s.queue
    pub capacity : r.1.capacity ≡ s.capacity
    pub current : r.1.current ≡ s.current
    pub scheduling : r.1.scheduling ≡ s.scheduling
    pub added : handed r.1.sent ≡ handed s.sent ++ (if r.0 then task_in msg else [])

  handed-send :
      (conn : ℕ) (msg : Sent) (sent : List (ℕ × Sent))
      → handed (sent ++ (conn, msg) ∷ []) ≡ handed sent ++ task_in msg
  handed-send conn msg sent =
      rw (handed-append sent ((conn, msg) ∷ []), append-nil (task_in msg)) refl

  send_at :
      (conn : ℕ) (msg : Sent) (s : System) (ws : List Bool)
      → s.writes ≡ ws
      → IsSend conn msg s (send conn msg s)
  unfolding send
  send_at conn msg s [] e =
      rw (send, e)
        (record {
          manager = refl;
          queue = refl;
          capacity = refl;
          current = refl;
          scheduling = refl;
          added = handed-send conn msg s.sent;
        })
  send_at conn msg s (true ∷ later) e =
      rw (send, e)
        (record {
          manager = refl;
          queue = refl;
          capacity = refl;
          current = refl;
          scheduling = refl;
          added = handed-send conn msg s.sent;
        })
  send_at conn msg s (false ∷ later) e =
      rw (send, e)
        (record {
          manager = refl;
          queue = refl;
          capacity = refl;
          current = refl;
          scheduling = refl;
          added = sym (append-nil (handed s.sent));
        })

  pub send-IsSend : (conn : ℕ) (msg : Sent) (s : System) → IsSend conn msg s (send conn msg s)
  send-IsSend conn msg s = send_at conn msg s s.writes refl

  module _ ⦃E : Encodings⦄ where
    abbrev pub given : Task → Given
    given t = (E.show_uuid t.uuid, t.invoke)

    abbrev pub held : Option (Function × Task) → List Given
    held none = []
    held (some (f, t)) = given t ∷ []

    abbrev pub listed : List Task → List Given
    listed [] = []
    listed (t ∷ ts) = given t ∷ listed ts

    -- The tasks in their order: those that workers have, the one that a worker is looked for, and
    -- those in the queue.
    abbrev pub tasks : System → List Given
    tasks s = handed s.sent ++ (held s.current ++ listed s.queue)

    pub record IsSound (s : System) : Type 0 where
      pub running : s.scheduling ≡ true
      pub named : All (λ t. Named t.invoke) s.queue
      pub consistent : Consistent s.manager
      pub once : Once s.manager
      pub bounded : length s.queue ≤ s.capacity

    pub record Keeps (s s' : System) (more : List Given) : Type 0 where
      pub sound : IsSound s'
      pub ordered : tasks s' ≡ tasks s ++ more
      pub capacity : s'.capacity ≡ s.capacity

    -- A step that leaves all tasks where they are.
    pub record Silent (s s' : System) : Type 0 where
      pub queue : s'.queue ≡ s.queue
      pub capacity : s'.capacity ≡ s.capacity
      pub current : s'.current ≡ s.current
      pub scheduling : s'.scheduling ≡ s.scheduling
      pub sent : handed s'.sent ≡ handed s.sent

    pub Silent-refl : (s : System) → Silent s s
    Silent-refl s = record {
      queue = refl;
      capacity = refl;
      current = refl;
      scheduling = refl;
      sent = refl;
    }

    pub Silent-trans : {s t u : System} → Silent s t → Silent t u → Silent s u
    Silent-trans a b = record {
      queue = b.queue ∙ a.queue;
      capacity = b.capacity ∙ a.capacity;
      current = b.current ∙ a.current;
      scheduling = b.scheduling ∙ a.scheduling;
      sent = b.sent ∙ a.sent;
    }

    pub Silent-Keeps :
        (s s' : System)
        → IsSound s
        → Silent s s'
        → Consistent s'.manager
        → Once s'.manager
        → Keeps s s' []
    Silent-Keeps s s' h q c o = record {
      sound = record {
        running = q.scheduling ∙ h.running;
        named = rw q.queue h.named;
        consistent = c;
        once = o;
        bounded = rw (q.queue, q.capacity) h.bounded;
      };
      ordered = rw (q.sent, q.current, q.queue) (sym (append-nil (tasks s)));
      capacity = q.capacity;
    }

    -- A message without a task.
    pub send-Silent :
        (conn : ℕ) (msg : Sent) (s : System) → task_in msg ≡ [] → Silent s (send conn msg s).1
    send-Silent conn msg s e =
        let a = send-IsSend conn msg s in
        record {
          queue = a.queue;
          capacity = a.capacity;
          current = a.current;
          scheduling = a.scheduling;
          sent = nothing (send conn msg s).0 a.added;
        }
      where
        nothing :
            (b : Bool)
            → handed (send conn msg s).1.sent ≡ handed s.sent ++ (if b then task_in msg else [])
            → handed (send conn msg s).1.sent ≡ handed s.sent
        nothing true p = p ∙ rw e (append-nil (handed s.sent))
        nothing false p = p ∙ append-nil (handed s.sent)

    pub send-Keeps :
        (conn : ℕ) (msg : Sent) (s : System)
        → task_in msg ≡ []
        → IsSound s
        → Keeps s (send conn msg s).1 []
    send-Keeps conn msg s e h =
        Silent-Keeps s (send conn msg s).1 h (send-Silent conn msg s e)
          (rw ((send-IsSend conn msg s).manager) h.consistent)
          (rw ((send-IsSend conn msg s).manager) h.once)
