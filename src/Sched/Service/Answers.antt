-- ===== src/Sched/Service/Answers.antt =====
-- The results of tasks and the callers that wait for them: snapfaas/src/sched/rpc_server.rs.
use faasten.Base.{
  ℕ, ◌≡◌, ◌≢◌, refl, ap, ◌∙◌, true, false, none, some, List, [], ◌∷◌, ◌++◌, Bool-cases,
  Option-cases, inl, inr, ◌==◌, number_eq, arith, test_ne, ℕ_discrete,
}
use faasten.Base.Dict
use faasten.Base.Dict.{Dict, get-insert_self, get-remove_self}
use faasten.Labels.{Labels}
use faasten.Syscall.Messages.{TaskReturn}
use faasten.Sched.Protocol.{InvokeMessage, Request, Sent, Encodings}
use faasten.Sched.Service.{
  Thread, System, send, answer, finish, submit, enqueue, invoke, queue_full, has_room,
  serve_request, receive, start_waiting, Event, step,
}
use faasten.Sched.Service.Tasks.{send-IsSend}
use faasten.Sched.Service.Rounds.{if_true}

module _ ⦃L : Labels⦄ ⦃E : Encodings⦄ where
  -- A connection whose thread reads its next request.
  abbrev pub Reads : ℕ → System → Type 0
  Reads conn s = (t : Thread) × (Dict.get conn s.threads ≡ some t) × (t.registering ≡ none)

  -- The report of a task's result on a connection.
  abbrev pub reports : ℕ → ℕ → TaskReturn → Event
  reports conn uuid r = Event.received conn (Request.finish_task (E.show_uuid uuid) (some r))

  received-Reads :
      (conn : ℕ) (req : Request) (s : System) (q : Reads conn s)
      → step (Event.received conn req) s ≡ serve_request conn q.0 req s
  unfolding step receive
  received-Reads conn req s (t, e, i) = rw e (simp (receive, i) refl)

  reports_lem :
      (conn uuid : ℕ) (r : TaskReturn) (s : System)
      → Reads conn s
      → step (reports conn uuid r) s ≡ finish (some uuid) r s
  unfolding serve_request
  reports_lem conn uuid r s q = received-Reads conn _ s q ∙ rw (E.parse-show uuid) refl

  -- A task without a caller that waits.
  finish-unknown :
      (uuid : ℕ) (r : TaskReturn) (s : System)
      → Dict.get uuid s.manager.wait_list ≡ none
      → finish (some uuid) r s ≡ s
  unfolding finish answer
  finish-unknown uuid r s e = elim (Bool-cases (uuid == 0)) [
    | inl z ↦ rw z refl
    | inr n ↦ rw (n, e) refl
  ]

  finish-unknown_sent :
      (uuid : ℕ) (r : TaskReturn) (s : System)
      → Dict.get uuid s.manager.wait_list ≡ none
      → (finish (some uuid) r s).sent ≡ s.sent
  finish-unknown_sent uuid r s e = ap (λ (u : System). u.sent) (finish-unknown uuid r s e)

  send-manager : (conn : ℕ) (msg : Sent) (s : System) → (send conn msg s).1.manager ≡ s.manager
  send-manager conn msg s = (send-IsSend conn msg s).manager

  -- After a report nobody waits for the task, if its number is not the nil number.
  finish-gone :
      (uuid : ℕ) (r : TaskReturn) (s : System)
      → uuid ≢ 0
      → Dict.get uuid (finish (some uuid) r s).manager.wait_list ≡ none
  unfolding finish answer
  finish-gone uuid r s n = elim (Option-cases (Dict.get uuid s.manager.wait_list)) [
    | inl e ↦ rw (test_ne uuid 0 n, e) e
    | inr (c, e) ↦
        rw (test_ne uuid 0 n, e)
          (rw
            (send-manager c (Sent.result r) (record s {
              manager = record s.manager { wait_list = Dict.remove uuid s.manager.wait_list };
            }))
            (get-remove_self uuid s.manager.wait_list))
  ]

  finish-nil : (r : TaskReturn) (s : System) → finish (some 0) r s ≡ s
  unfolding finish
  finish-nil r s = refl

  -- What is sent on a second report of the same task.
  finish-finish :
      (uuid : ℕ) (r r' : TaskReturn) (s : System)
      → (finish (some uuid) r' (finish (some uuid) r s)).sent ≡ (finish (some uuid) r s).sent
  finish-finish uuid r r' s = elim (ℕ_discrete uuid 0) [
    | yes z ↦ rw (z, finish-nil r s, finish-nil r' s) refl
    | no n ↦ finish-unknown_sent uuid r' (finish (some uuid) r s) (finish-gone uuid r s n)
  ]

  finish-threads :
      (uuid : ℕ) (r : TaskReturn) (s : System) → (finish (some uuid) r s).threads ≡ s.threads
  unfolding finish answer send
  finish-threads uuid r s = ground arith

  finish-Reads :
      (conn uuid : ℕ) (r : TaskReturn) (s : System)
      → Reads conn s
      → Reads conn (finish (some uuid) r s)
  finish-Reads conn uuid r s (t, e, i) =
      (t, ap (λ d. Dict.get conn d) (finish-threads uuid r s) ∙ e, i)

  send-sent :
      (conn : ℕ) (msg : Sent) (s : System)
      → s.writes ≡ []
      → (send conn msg s).1.sent ≡ s.sent ++ (conn, msg) ∷ []
  unfolding send
  send-sent conn msg s e = rw (e, send) refl

  finish-sent :
      (uuid conn : ℕ) (r : TaskReturn) (s : System)
      → uuid ≢ 0
      → Dict.get uuid s.manager.wait_list ≡ some conn
      → s.writes ≡ []
      → (finish (some uuid) r s).sent ≡ s.sent ++ (conn, Sent.result r) ∷ []
  unfolding finish answer
  finish-sent uuid conn r s n e w =
      rw (test_ne uuid 0 n, e)
        (send-sent conn (Sent.result r)
          (record s {
            manager = record s.manager { wait_list = Dict.remove uuid s.manager.wait_list };
          })
          w)

  -- The result of a task, reported while its caller waits and writes succeed, is sent to that
  -- caller and to nobody else; a second report of the same task, on whatever connection, sends
  -- nothing.
  pub report-report :
      (conn conn' uuid caller : ℕ) (r r' : TaskReturn) (s : System)
      → Reads conn s
      → Reads conn' s
      → uuid ≢ 0
      → Dict.get uuid s.manager.wait_list ≡ some caller
      → s.writes ≡ []
      → ((step (reports conn uuid r) s).sent ≡ s.sent ++ (caller, Sent.result r) ∷ [])
        × ((step (reports conn' uuid r') (step (reports conn uuid r) s)).sent
            ≡ s.sent ++ (caller, Sent.result r) ∷ [])
  report-report conn conn' uuid caller r r' s q q' n e w =
      let first = finish-sent uuid caller r s n e w in
      rw (reports_lem conn uuid r s q) (
        first,
        ap (λ (u : System). u.sent)
              (reports_lem conn' uuid r' (finish (some uuid) r s) (finish-Reads conn' uuid r s q'))
            ∙ finish-finish uuid r r' s
            ∙ first,
      )

  start_waiting_lem :
      (conn uuid : ℕ) (t : Thread) (s : System)
      → t.registering ≡ some uuid
      → (start_waiting conn (some t) s).sent ≡ s.sent
        × (Dict.get uuid (start_waiting conn (some t) s).manager.wait_list ≡ some conn)
  start_waiting_lem conn uuid t s e =
      rw (e, start_waiting) (refl, get-insert_self uuid conn s.manager.wait_list)

  -- A caller waits for nothing where its task is finished first: `serve` puts a task into the
  -- queue before it enters the caller among those that wait. A result that is reported in between
  -- is sent to nobody, and then the caller is entered under a task that is over.
  pub registered-report :
      (worker caller uuid : ℕ) (t : Thread) (r : TaskReturn) (s : System)
      → Reads worker s
      → Dict.get caller s.threads ≡ some t
      → t.registering ≡ some uuid
      → Dict.get uuid s.manager.wait_list ≡ none
      → ((step (Event.registered caller) (step (reports worker uuid r) s)).sent ≡ s.sent)
        × (Dict.get uuid
              (step (Event.registered caller) (step (reports worker uuid r) s)).manager.wait_list
            ≡ some caller)
  unfolding step
  registered-report worker caller uuid t r s q e i n =
      rw (reports_lem worker uuid r s q ∙ finish-unknown uuid r s n, e)
        (start_waiting_lem caller uuid t s i)

  enqueue-full :
      (conn : ℕ) (t : Thread) (uuid : ℕ) (r : InvokeMessage) (s : System)
      → has_room s ≡ false
      → enqueue conn t uuid r s ≡ (send conn (Sent.result queue_full) s).1
  unfolding enqueue
  enqueue-full conn t uuid r s e = rw e refl

  invoke-full :
      (conn : ℕ) (t : Thread) (uuid : ℕ) (later : List ℕ) (r : InvokeMessage) (s : System)
      → s.scheduling ≡ true
      → has_room s ≡ false
      → invoke conn t r (uuid ∷ later) s
        ≡ (send conn (Sent.result queue_full) (record s { draws = later })).1
  unfolding invoke submit
  invoke-full conn t uuid later r s k e =
      let u : System = record s { draws = later } in
      if_true (λ (x : System). x ≡ (send conn (Sent.result queue_full) u).1) s.scheduling _ _ k
        (enqueue-full conn t uuid r u e)

  -- An invocation that finds the queue full is answered at once with that, whether its caller
  -- wants to wait or not, and does not enter the queue.
  pub received-full :
      (conn uuid : ℕ) (later : List ℕ) (r : InvokeMessage) (s : System)
      → Reads conn s
      → s.draws ≡ uuid ∷ later
      → s.scheduling ≡ true
      → has_room s ≡ false
      → s.writes ≡ []
      → ((step (Event.received conn (Request.labeled_invoke r)) s).sent
          ≡ s.sent ++ (conn, Sent.result queue_full) ∷ [])
        × ((step (Event.received conn (Request.labeled_invoke r)) s).queue ≡ s.queue)
  unfolding serve_request
  received-full conn uuid later r s q d k e w =
      rw
        (
          received-Reads conn (Request.labeled_invoke r) s q,
          serve_request,
          d,
          invoke-full conn q.0 uuid later r s k e,
        )
        (
          send-sent conn (Sent.result queue_full) (record s { draws = later }) w,
          (send-IsSend conn (Sent.result queue_full) (record s { draws = later })).queue,
        )
