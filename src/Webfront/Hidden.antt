-- ===== src/Webfront/Hidden.antt =====
-- What a response of frontends/webfront/src/init.rs tells of the result of an invocation.
use faasten.Base.{
  ℕ, ◌≡◌, refl, sym, ap, ◌∙◌, subst, String, Bool, true, false, Option, none, some, ◌∷◌,
  if◌then◌else◌, Bool-cases, inl, inr,
}
use faasten.Labels.{Labels, Component, Buckle, can_flow_to_with_privilege}
use faasten.Fs.World.{Serde, World}
use faasten.Syscall.Messages.{TaskReturn}
use faasten.Syscall.Server.{Digest}
use faasten.Sched.Protocol.{InvokeMessage}
use faasten.Sched.HttpReply.{HttpReply, http_reply}
use faasten.Webfront.{
  WebRequest, WebReply, Libraries, Received, Front, Answer, Web, next, ◌>>=◌, unwrap,
}
use faasten.Webfront.Init.{
  or_public, prepare_payload, set_labels, prepare_labeled_invoke, submit, take_result, reply_of,
  wait_for_completion, init, may_read, unreadable,
}
use faasten.Webfront.Gives.{Gives}
use faasten.Webfront.Payloads.{FromRequest, payload-FromRequest}
use faasten.Webfront.Permitted.{
  Permitted, start_world, set_labels-start, started, prepare-Permitted,
}
use faasten.Webfront.Quiet.{Quiet, with_returns, asked, prepare_payload-Quiet, set_labels-Quiet}
use faasten.Webfront.Sends.{prepare-Quiet}

module _ ⦃L : Labels⦄ ⦃S : Serde⦄ ⦃D : Digest⦄ ⦃W : Libraries⦄ where
  -- The same answer, unless it may be readable.
  abbrev AgreeUnless : Bool → Answer WebReply → Answer WebReply → Type 0
  AgreeUnless true x y = Unit
  AgreeUnless false x y = x ≡ y

  agreed : (b : Bool) (x y : Answer WebReply) → b ≡ false → AgreeUnless b x y → x ≡ y
  agreed true x y e h = cc
  agreed false x y e h = h

  -- Two results under the label `l`, and a user.
  module _ (login : Option Component) (tr tr' : TaskReturn) (l : Buckle) where
    -- Whether the label may flow to that of the thread, with the user's privilege.
    abbrev readable : World → Bool
    readable w = can_flow_to_with_privilege l w.label (or_public login)

    -- The same answer, unless the label is readable at the end.
    abbrev Agree : Answer WebReply × Front → Answer WebReply × Front → Type 0
    Agree x y = AgreeUnless (readable x.1.server.world) x.0 y.0

    Agree-same : (b : Bool) (x : Answer WebReply) → AgreeUnless b x x
    Agree-same true x = tt
    Agree-same false x = refl

    -- The state with the one result to be read, and with the other.
    abbrev one : Front → Front
    one s = with_returns (Received.received tr) s

    abbrev other : Front → Front
    other s = with_returns (Received.received tr') s

    next-Agree :
        {A : Type 0} (Q : A → Front → Type 0) (r : Answer A) (s : Front) (f : A → Web WebReply)
        → Gives Q (r, s)
        → ((a : A) → Q a s → Agree (f a (one s)) (f a (other s)))
        → Agree (next r f (one s)) (next r f (other s))
    next-Agree Q (Answer.ok a) s f h k = k a h
    next-Agree Q (Answer.refused r) s f h k =
        Agree-same (readable s.server.world) (Answer.refused r)
    next-Agree Q Answer.panic s f h k = Agree-same (readable s.server.world) Answer.panic
    next-Agree Q Answer.diverges s f h k = Agree-same (readable s.server.world) Answer.diverges

    bind-Agree :
        {A : Type 0} (Q : A → Front → Type 0) (m : Web A) (f : A → Web WebReply) (s : Front)
        → Quiet m
        → Gives Q (m s)
        → ((a : A) (t : Front) → Q a t → Agree (f a (one t)) (f a (other t)))
        → Agree ((m >>= f) (one s)) ((m >>= f) (other s))
    unfolding ◌>>=◌
    bind-Agree Q m f s q h k =
        let step = next-Agree Q (m s).0 (m s).1 f h (λ a g. k a (m s).1 g) in
        subst (λ y. Agree (next (m (one s)).0 f (m (one s)).1) (next y.0 f y.1))
          (sym (q.blind (Received.received tr') s))
          (subst (λ x. Agree (next x.0 f x.1) (next (m s).0 f (other (m s).1)))
            (sym (q.blind (Received.received tr) s)) step)

    -- What is done with a result under the label.
    labelled :
        {A B : Type 0} (o : Option A) (a : A) (f : A → Web B) (s : Front)
        → o ≡ some a
        → (unwrap o >>= f) s ≡ f a s
    unfolding ◌>>=◌
    labelled none a f s e = cc
    labelled (some b) a f s e = ap (λ x. f x s) (cc e)

    take_result-labelled :
        (r : TaskReturn) (s : Front)
        → r.label ≡ some l
        → take_result (Received.received r) s
          ≡ (if can_flow_to_with_privilege l s.server.world.label s.server.world.privilege
                then reply_of (http_reply r)
                else unreadable l)
              s
    unfolding take_result ◌>>=◌ may_read
    take_result-labelled r s e = labelled r.label l _ s e

    reply_of-state : (o : Option HttpReply) (s : Front) → (reply_of o s).1 ≡ s
    reply_of-state none s = refl
    reply_of-state (some x) s = elim (Bool-cases (W.is_success x.status_code)) [
      | inl e ↦ rw e refl
      | inr e ↦ rw e refl
    ]

    agree_true : (b : Bool) (x y : Answer WebReply) → b ≡ true → AgreeUnless b x y
    agree_true true x y e = tt
    agree_true false x y e = cc

    tested-Agree :
        (b : Bool) (o o' : Option HttpReply) (s : Front)
        → readable s.server.world ≡ b
        → Agree
            ((if b then reply_of o else unreadable l) (one s))
            ((if b then reply_of o' else unreadable l) (other s))
    unfolding unreadable
    tested-Agree true o o' s e =
        agree_true _ _ _ (ap (λ t. readable t.server.world) (reply_of-state o (one s)) ∙ e)
    tested-Agree false o o' s e = Agree-same (readable s.server.world) (unreadable l s).0

    taken-Agree :
        (s : Front)
        → tr.label ≡ some l
        → tr'.label ≡ some l
        → s.server.world.privilege ≡ or_public login
        → Agree
            (take_result (Received.received tr) (one s))
            (take_result (Received.received tr') (other s))
    taken-Agree s e e' p =
        let w : World = s.server.world in
        let b : Bool = can_flow_to_with_privilege l w.label w.privilege in
        let tested =
          tested-Agree b (http_reply tr) (http_reply tr') s
            (ap (can_flow_to_with_privilege l w.label) (sym p)) in
        subst (λ y. Agree (take_result (Received.received tr) (one s)) y)
          (sym (take_result-labelled tr' (other s) e'))
          (subst (λ x. Agree x ((if b then reply_of (http_reply tr') else unreadable l) (other s)))
            (sym (take_result-labelled tr (one s) e)) tested)

    submitted-Agree :
        (b : Bool) (m : InvokeMessage) (r : WebReply) (s : Front)
        → tr.label ≡ some l
        → tr'.label ≡ some l
        → s.server.world.privilege ≡ or_public login
        → let submit_on : Front → Answer (Unit {0}) × Front = λ t.
          if b then (Answer.ok tt, record t { sent = m ∷ t.sent }) else (Answer.refused r, t) in
          let take : Unit {0} → Web WebReply = λ _ v. take_result v.returns v in
          Agree
            (next (submit_on (one s)).0 take (submit_on (one s)).1)
            (next (submit_on (other s)).0 take (submit_on (other s)).1)
    submitted-Agree true m r s e e' p = taken-Agree (record s { sent = m ∷ s.sent }) e e' p
    submitted-Agree false m r s e e' p = Agree-same (readable s.server.world) (Answer.refused r)

    wait-Agree :
        (m : InvokeMessage) (s : Front)
        → tr.label ≡ some l
        → tr'.label ≡ some l
        → s.server.world.privilege ≡ or_public login
        → Agree (wait_for_completion m (one s)) (wait_for_completion m (other s))
    unfolding wait_for_completion submit ◌>>=◌
    wait-Agree m s e e' p = submitted-Agree s.accepts m _ s e e' p

    init-Agree :
        (rounds : ℕ) (gate_path : String) (request : WebRequest) (s : Front)
        → tr.label ≡ some l
        → tr'.label ≡ some l
        → Agree
            (init rounds login gate_path request (one s))
            (init rounds login gate_path request (other s))
    unfolding init
    init-Agree rounds gate_path request s e e' =
        let w : World = s.server.world in
        bind-Agree (λ p t. FromRequest request p × (t.server.world ≡ w)) (prepare_payload request) _
          s (prepare_payload-Quiet request) (payload-FromRequest request s)
          λ p t (f, k).
            bind-Agree (λ _ u. u.server.world ≡ start_world login p.label t.server.world)
              (set_labels login p.label) _ t (set_labels-Quiet login p.label)
              (set_labels-start login p.label t)
              λ _ u h.
                bind-Agree
                  (λ m v.
                    Permitted rounds login gate_path request w m
                    × (v.server.world.privilege ≡ or_public login))
                  (prepare_labeled_invoke rounds gate_path p) _ u (prepare-Quiet rounds gate_path p)
                  (prepare-Permitted rounds login gate_path request w p u f
                    (started login p.label (asked request) t.server.world w h f.label_is k))
                  λ m v ok. wait-Agree m v e e' ok.1

  -- Let two results have the same label, which may not flow to the label that the thread has at the
  -- end, with the user's privilege. Whichever of the two comes back, a user gets the same answer, be
  -- it a response, an error or none: the user is told nothing of the result but its label.
  pub init-hides :
      (rounds : ℕ) (login : Option Component) (gate_path : String) (request : WebRequest)
      (s : Front) (tr tr' : TaskReturn) (l : Buckle)
      → tr.label ≡ some l
      → tr'.label ≡ some l
      → can_flow_to_with_privilege l
          (init rounds login gate_path request
            (with_returns (Received.received tr) s)).1.server.world.label
          (or_public login)
        ≡ false
      → (init rounds login gate_path request (with_returns (Received.received tr) s)).0
        ≡ (init rounds login gate_path request (with_returns (Received.received tr') s)).0
  init-hides rounds login gate_path request s tr tr' l e e' h =
      agreed _ _ _ h (init-Agree login tr tr' l rounds gate_path request s e e')
