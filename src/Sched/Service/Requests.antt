-- ===== src/Sched/Service/Requests.antt =====
-- What each request does to the scheduler's tasks: snapfaas/src/sched/mod.rs,
-- snapfaas/src/sched/rpc_server.rs.
use faasten.Base.{
  ℕ, ◌≡◌, refl, ◌∙◌, Option, none, some, List, [], ◌∷◌, ◌++◌, Option-cases, inl, inr, number_eq,
}
use faasten.Base.Dict
use faasten.Base.Dict.{Dict}
use faasten.Labels.{Labels}
use faasten.Sched.Manager.{Worker, Manager, ResourceInfo, add_idle, update}
use faasten.Sched.Leaving.{remove}
use faasten.Sched.Consistent.{Consistent}
use faasten.Sched.Once.{Once}
use faasten.Sched.Calls.{ManagerCall, perform, perform-Sane}
use faasten.Sched.Protocol.{InvokeMessage, Request, SchedResponse, Sent, Encodings}
use faasten.Sched.Service.{
  Thread, System, send, invoke, terminate_each, drop_node, report, serve_request, receive, Event,
  step, end_thread,
}
use faasten.Sched.Service.Tasks.{
  Named, Given, send-IsSend, IsSound, Keeps, Silent, Silent-refl, Silent-trans, Silent-Keeps,
  send-Silent, send-Keeps,
}
use faasten.Sched.Service.Rounds.{
  still-Keeps, managed-Silent, managed-Keeps, finish-Keeps, taken, submit-Keeps,
}

module _ ⦃L : Labels⦄ ⦃E : Encodings⦄ where
  terminate_each-Silent :
      (ws : List Worker) (s : System)
      → Silent s (terminate_each ws s) × ((terminate_each ws s).manager ≡ s.manager)
  unfolding terminate_each
  terminate_each-Silent [] s = (Silent-refl s, refl)
  terminate_each-Silent (w ∷ ws) s =
      let msg : Sent = Sent.response SchedResponse.terminate in
      let (q, e) = terminate_each-Silent ws (send w.conn msg s).1 in
      (Silent-trans (send-Silent w.conn msg s refl) q, e ∙ (send-IsSend w.conn msg s).manager)

  drop_node-Keeps :
      (conn : ℕ) (t : Thread) (s : System) → IsSound s → Keeps s (drop_node conn t s) []
  unfolding drop_node perform
  drop_node-Keeps conn t s h =
      let left : List Worker × Manager = remove t.addr.ip s.manager in
      let u : System = record s { manager = left.1 } in
      let v : System = terminate_each left.0 u in
      let (q, e) = terminate_each-Silent left.0 u in
      let c : Consistent left.1 × Once left.1 =
        perform-Sane (ManagerCall.node_gone t.addr.ip) s.manager h.consistent h.once in
      Silent-Keeps s (end_thread conn v) h
        (Silent-trans (managed-Silent s left.1 s.threads)
          (Silent-trans q (managed-Silent v v.manager (Dict.remove conn v.threads))))
        (rw e c.0) (rw e c.1)

  report-Keeps :
      (o : Option ResourceInfo) (t : Thread) (s : System) → IsSound s → Keeps s (report o t s) []
  unfolding perform
  report-Keeps none t s h = still-Keeps s h
  report-Keeps (some info) t s h =
      let c : Consistent (update t.addr.ip info s.manager)
          × Once (update t.addr.ip info s.manager) =
        perform-Sane (ManagerCall.node_report t.addr.ip info) s.manager h.consistent h.once in
      managed-Keeps s _ s.threads h c.0 c.1

  -- The task that a request brings, where it is taken.
  abbrev drawn : InvokeMessage → List ℕ → System → List Given
  drawn r [] s = []
  drawn r (uuid ∷ later) s = taken uuid r s

  abbrev brought : Request → System → List Given
  brought (Request.labeled_invoke r) s = drawn r s.draws s
  brought _ s = []

  abbrev pub read_by : Option Thread → Request → System → List Given
  read_by none req s = []
  read_by (some t) req s = elim t.registering [ none ↦ brought req s | some uuid ↦ [] ]

  -- The tasks that a step accepts: that of an invocation, where its thread reads it and the queue
  -- has room.
  abbrev pub accepts : Event → System → List Given
  accepts (Event.received conn req) s = read_by (Dict.get conn s.threads) req s
  accepts _ s = []

  -- The tasks that are accepted during a run, in order.
  unfoldable pub accepted : List Event → System → List Given
  accepted [] s = []
  accepted (e ∷ es) s = accepts e s ++ accepted es (step e s)

  -- A request that invokes names its function.
  abbrev pub NamedRequest : Request → Type 0
  NamedRequest (Request.labeled_invoke r) = Named r
  NamedRequest _ = Unit

  abbrev pub NamedEvent : Event → Type 0
  NamedEvent (Event.received conn req) = NamedRequest req
  NamedEvent _ = Unit

  invoke-Keeps :
      (conn : ℕ) (t : Thread) (r : InvokeMessage) (draws : List ℕ) (s : System)
      → IsSound s
      → Named r
      → Keeps s (invoke conn t r draws s) (drawn r draws s)
  unfolding invoke
  invoke-Keeps conn t r [] s h k = still-Keeps s h
  invoke-Keeps conn t r (uuid ∷ later) s h k =
      let u : System = record s { draws = later } in
      let q =
        submit-Keeps conn t uuid r u
          (record {
            running = h.running;
            named = h.named;
            consistent = h.consistent;
            once = h.once;
            bounded = h.bounded;
          })
          k in
      record { sound = q.sound; ordered = q.ordered; capacity = q.capacity }

  serve_request-Keeps :
      (conn : ℕ) (t : Thread) (req : Request) (s : System)
      → IsSound s
      → NamedRequest req
      → Keeps s (serve_request conn t req s) (brought req s)
  unfolding serve_request perform
  serve_request-Keeps conn t Request.ping s h k = send-Keeps conn _ s refl h
  serve_request-Keeps conn t (Request.get_task id) s h k =
      let c : Consistent (add_idle t.addr conn s.manager) × Once (add_idle t.addr conn s.manager) =
        perform-Sane (ManagerCall.worker_idle t.addr conn) s.manager h.consistent h.once in
      managed-Keeps s _ s.threads h c.0 c.1
  serve_request-Keeps conn t (Request.finish_task id none) s h k =
      managed-Keeps s s.manager _ h h.consistent h.once
  serve_request-Keeps conn t (Request.finish_task id (some r)) s h k =
      finish-Keeps (E.parse_uuid id) r s h
  serve_request-Keeps conn t (Request.labeled_invoke r) s h k = invoke-Keeps conn t r s.draws s h k
  serve_request-Keeps conn t (Request.update_resource info) s h k =
      report-Keeps (E.parse_info info) t s h
  serve_request-Keeps conn t Request.drop_resource s h k = drop_node-Keeps conn t s h
  serve_request-Keeps conn t Request.terminate_all s h k = still-Keeps s h
  serve_request-Keeps conn t Request.no_kind s h k = still-Keeps s h

  pub receive-Keeps :
      (conn : ℕ) (o : Option Thread) (req : Request) (s : System)
      → IsSound s
      → NamedRequest req
      → Keeps s (receive conn o req s) (read_by o req s)
  unfolding receive
  receive-Keeps conn none req s h k = still-Keeps s h
  receive-Keeps conn (some t) req s h k = elim (Option-cases t.registering) [
    | inl e ↦ rw (receive, read_by, e) (serve_request-Keeps conn t req s h k)
    | inr (u, e) ↦ rw (receive, read_by, e) (still-Keeps s h)
  ]
