-- ===== src/Webfront/Sends.antt =====
-- What frontends/webfront/src/init.rs sends to the scheduler.
use faasten.Base.{
  ℕ, ◌≡◌, refl, ap, ◌∙◌, String, Bool, true, false, Option, none, some, List, ◌∷◌, if◌then◌else◌,
  name_eq, Bool-cases, inl, inr,
}
use faasten.Labels.{Labels, Component, Buckle}
use faasten.Fs.World.{Serde, World}
use faasten.Fs.Path.{FilePath}
use faasten.Fs.Parser.{Parsed}
use faasten.Syscall.Server.{Digest}
use faasten.Sched.Protocol.{InvokeMessage}
use faasten.Sched.HttpReply.{HttpReply, http_reply}
use faasten.Webfront.{WebRequest, WebReply, Libraries, Received, Front, Answer, next, ◌>>=◌}
use faasten.Webfront.Init.{
  Payload, prepare_payload, or_public, set_labels, parse_path, path_or_refuse,
  prepare_labeled_invoke, submit, may_read, unreadable, take_result, reply_of, wait_for_completion,
  init,
}
use faasten.Webfront.Quiet.{
  with_returns, asked, Quiet, Quiet-bind, Quiet-calls, Quiet-pure, Quiet-unwrap, Quiet-if, Sends,
  bind-Sends, prepare_payload-Quiet, set_labels-Quiet,
}
use faasten.Webfront.Payloads.{FromRequest, payload-FromRequest}
use faasten.Webfront.Permitted.{
  Permitted, start_world, set_labels-start, started, prepare-Permitted,
}

module _ ⦃L : Labels⦄ ⦃S : Serde⦄ ⦃D : Digest⦄ ⦃W : Libraries⦄ where
  path_or-Quiet : (o : Parsed FilePath) (s : Front) → (path_or_refuse o s).1.sent ≡ s.sent
  path_or-Quiet (Parsed.err e) s = refl
  path_or-Quiet (Parsed.ok p) s = refl

  path_or-blind :
      (o : Parsed FilePath) (q : Received) (s : Front)
      → path_or_refuse o (with_returns q s)
        ≡ ((path_or_refuse o s).0, with_returns q (path_or_refuse o s).1)
  path_or-blind (Parsed.err e) q s = refl
  path_or-blind (Parsed.ok p) q s = refl

  parse_path-Quiet : (t : String) → Quiet (parse_path t)
  unfolding parse_path
  parse_path-Quiet t = record { at = λ s. path_or-Quiet _ s; blind = λ q s. path_or-blind _ q s }

  pub prepare-Quiet :
      (rounds : ℕ) (gate_path : String) (p : Payload)
      → Quiet (prepare_labeled_invoke rounds gate_path p)
  unfolding prepare_labeled_invoke
  prepare-Quiet rounds gate_path p = Quiet-bind _ _ (parse_path-Quiet gate_path) λ path.
      Quiet-bind _ _ (Quiet-calls _ _) λ g.
        Quiet-bind _ _ (Quiet-calls _ _) λ l. Quiet-bind _ _ (Quiet-calls _ _) λ i. Quiet-pure _

  reply-sent : (o : Option HttpReply) (s : Front) → (reply_of o s).1.sent ≡ s.sent
  reply-sent none s = refl
  reply-sent (some r) s = elim (Bool-cases (W.is_success r.status_code)) [
    | inl e ↦ rw e refl
    | inr e ↦ rw e refl
  ]

  reply-blind :
      (o : Option HttpReply) (q : Received) (s : Front)
      → reply_of o (with_returns q s) ≡ ((reply_of o s).0, with_returns q (reply_of o s).1)
  reply-blind none q s = refl
  reply-blind (some r) q s = elim (Bool-cases (W.is_success r.status_code)) [
    | inl e ↦ rw e refl
    | inr e ↦ rw e refl
  ]

  reply-Quiet : (o : Option HttpReply) → Quiet (reply_of o)
  reply-Quiet o = record { at = reply-sent o; blind = λ q s. reply-blind o q s }

  may_read-Quiet : (l : Buckle) → Quiet (may_read l)
  unfolding may_read
  may_read-Quiet l = record { at = λ s. refl; blind = λ q s. refl }

  unreadable-Quiet : (l : Buckle) → Quiet (unreadable l)
  unfolding unreadable
  unreadable-Quiet l = record { at = λ s. refl; blind = λ q s. refl }

  take-Quiet : (r : Received) → Quiet (take_result r)
  unfolding take_result
  take-Quiet Received.unreadable = record { at = λ s. refl; blind = λ q s. refl }
  take-Quiet Received.undecodable = record { at = λ s. refl; blind = λ q s. refl }
  take-Quiet (Received.received tr) = Quiet-bind _ _ (Quiet-unwrap tr.label) λ l.
      Quiet-bind _ _ (may_read-Quiet l)
        λ b. Quiet-if b _ _ (reply-Quiet (http_reply tr)) (unreadable-Quiet l)

  submitted-Sends :
      (P : InvokeMessage → Type 0) (before : List InvokeMessage) (b : Bool) (m : InvokeMessage)
      (s : Front) (r : WebReply)
      → s.sent ≡ before
      → P m
      → let u : Answer (Unit {0}) × Front =
          if b then (Answer.ok tt, record s { sent = m ∷ s.sent }) else (Answer.refused r, s) in
        Sends P before (next u.0 (λ _ v. take_result v.returns v) u.1).1
  submitted-Sends P before true m s r e h =
      inr (m, (take-Quiet s.returns).at (record s { sent = m ∷ s.sent }) ∙ ap (λ q. m ∷ q) e, h)
  submitted-Sends P before false m s r e h = inl e

  wait-Sends :
      (P : InvokeMessage → Type 0) (before : List InvokeMessage) (m : InvokeMessage) (s : Front)
      → s.sent ≡ before
      → P m
      → Sends P before (wait_for_completion m s).1
  unfolding wait_for_completion submit ◌>>=◌
  wait-Sends P before m s e h = submitted-Sends P before s.accepts m s _ e h

  -- At most one message is sent in an invocation by a user, and one that is permitted in the file
  -- system as it is at the start.
  pub init-Sends :
      (rounds : ℕ) (login : Option Component) (gate_path : String) (request : WebRequest)
      (s : Front)
      → Sends
          (Permitted rounds login gate_path request s.server.world)
          s.sent
          (init rounds login gate_path request s).1
  unfolding init
  init-Sends rounds login gate_path request s =
      let w : World = s.server.world in
      let P : InvokeMessage → Type 0 = Permitted rounds login gate_path request w in
      bind-Sends P (λ p t. FromRequest request p × (t.server.world ≡ w)) s.sent
        (prepare_payload request) _ s refl (prepare_payload-Quiet request)
        (payload-FromRequest request s)
        λ p t e (f, k).
          bind-Sends P (λ _ u. u.server.world ≡ start_world login p.label t.server.world) s.sent
            (set_labels login p.label) _ t e (set_labels-Quiet login p.label)
            (set_labels-start login p.label t)
            λ _ u e' h.
              bind-Sends P (λ m v. P m × (v.server.world.privilege ≡ or_public login)) s.sent
                (prepare_labeled_invoke rounds gate_path p) _ u e'
                (prepare-Quiet rounds gate_path p)
                (prepare-Permitted rounds login gate_path request w p u f
                  (started login p.label (asked request) t.server.world w h f.label_is k))
                λ m v e'' ok. wait-Sends P s.sent m v e'' ok.0
