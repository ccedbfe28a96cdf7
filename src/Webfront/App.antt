-- ===== src/Webfront/App.antt =====
-- The handlers of frontends/webfront/src/app.rs: who is logged in, delegation, invocation and pings.
use faasten.Base.{
  ℕ, ◌+◌, ◌*◌, String, Bool, true, false, ◌&&◌, Option, none, some, if◌then◌else◌, ltb,
}
use faasten.Labels.{Labels, Component, dc_true, implies, parse_buckle, secrecy}
use faasten.Fs.World.{Serde}
use faasten.Fs.Parser.Texts.{append}
use faasten.Fs.Utils.{set_my_privilege}
use faasten.Syscall.Server.{Digest, on_fs}
use faasten.Bootstrap.{register_user_fsutil}
use faasten.Labels.{Buckle}
use faasten.Webfront.{
  last_part, Delegate, WebRequest, WebContent, WebReply, Claims, Libraries, Answer, Web, ◌>>=◌,
  ◌>>◌, pure, refuse, ok_or, unwrap, calls,
}
use faasten.Webfront.Init.{init, failed}

module _ ⦃L : Labels⦄ ⦃S : Serde⦄ ⦃D : Digest⦄ ⦃W : Libraries⦄ where
  -- The test of the time is switched off, as it is in the code.
  abbrev pub not_expired : Claims → Web Component
  not_expired claims s =
      if ltb claims.exp s.now && false
      then refuse 403 (WebContent.error "Authentication token expired") s
      else pure claims.sub s

  unfoldable pub verify_jwt : WebRequest → Web Component
  unfolding last_part
  verify_jwt request = do
    header ← ok_or 400 WebContent.empty request.authorization
    claims ← ok_or 400 WebContent.empty (W.verify_with_key (last_part header))
    not_expired claims

  -- `Buckle::parse(format!("{},T", ..))`, and its secrecy.
  unfoldable pub principal : String → Web Component
  principal t = do
    l ← ok_or 400 WebContent.described (parse_buckle (append t ",T"))
    pure (secrecy l)

  abbrev pub clearance_for : Component → Option String → Web Component
  clearance_for new_principal none = pure new_principal
  clearance_for new_principal (some c) = principal c

  -- `label` is that of the installed images.
  unfoldable pub bootstrap_for : Buckle → Component → Option String → Web (Unit {0})
  unfolding calls principal
  bootstrap_for label new_principal c = do
    clearance ← clearance_for new_principal c
    calls failed (on_fs (set_my_privilege new_principal))
    calls failed (register_user_fsutil label new_principal clearance)
    calls failed (on_fs (set_my_privilege dc_true))

  abbrev pub claims_at : ℕ → Component → Claims
  claims_at now sub = record { alg = "ES256"; iat = now; exp = now + 10 * 60; sub = sub }

  -- A token for ten minutes.
  unfoldable pub issue : Component → Web WebReply
  issue sub s =
      (do
        token ← unwrap (W.sign_with_key (claims_at s.now sub))
        pure (record { status_code = 200; content = WebContent.text token }))
        s

  abbrev pub if_asked : Bool → Web (Unit {0}) → Web (Unit {0})
  if_asked true m = m
  if_asked false m = pure tt

  unfoldable pub delegate_to : Buckle → Component → Delegate → Web WebReply
  unfolding principal bootstrap_for issue
  delegate_to label login d = do
    new_principal ← principal d.component
    if implies login new_principal
        then (do
          if_asked d.bootstrap (bootstrap_for label new_principal d.clearance)
          issue new_principal)
        else refuse 406 WebContent.empty

  -- A body that is no text is no JSON either.
  abbrev pub body_text : Option (Option String) → Web String
  body_text none = refuse 400 WebContent.empty
  body_text (some none) = refuse 400 WebContent.described
  body_text (some (some t)) = pure t

  unfoldable pub delegate : Buckle → WebRequest → Web WebReply
  unfolding verify_jwt delegate_to
  delegate label request = do
    login ← verify_jwt request
    text ← body_text request.body
    d ← ok_or 400 WebContent.described (W.read_delegate text)
    delegate_to label login d

  abbrev pub no_connection : WebContent
  no_connection = WebContent.error "failed to get scheduler connection"

  -- `verify_jwt(request).ok()`: whoever cannot be told is nobody.
  abbrev pub login_or_nobody : Answer Component → Answer (Option Component)
  login_or_nobody (Answer.ok c) = Answer.ok (some c)
  login_or_nobody (Answer.refused r) = Answer.ok none
  login_or_nobody Answer.panic = Answer.panic
  login_or_nobody Answer.diverges = Answer.diverges

  unfoldable pub who : WebRequest → Web (Option Component)
  unfolding verify_jwt
  who request s = let (r, t) = verify_jwt request s in (login_or_nobody r, t)

  -- The pool of connections.
  unfoldable pub connection : Web (Unit {0})
  connection s = if s.connected then pure tt s else refuse 500 no_connection s

  -- The path is given decoded.
  unfoldable pub faasten_invoke : ℕ → String → WebRequest → Web WebReply
  unfolding who init connection
  faasten_invoke rounds gate_path request = do
    login ← who request
    connection
    init rounds login gate_path request

  unfoldable pub whoami : WebRequest → Web WebReply
  unfolding verify_jwt
  whoami request = do
    login ← verify_jwt request
    pure (record { status_code = 200; content = WebContent.user login })
