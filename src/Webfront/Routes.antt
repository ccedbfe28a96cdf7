-- ===== src/Webfront/Routes.antt =====
-- The routes of frontends/webfront/src/app.rs, the ping of the scheduler, and the login at the
-- university's server. Parameters: what that server answers to a ticket, as lines; the component of
-- one of its users; and the handlers that talk to GitHub.
use faasten.Base.{ℕ, String, Bool, Option, List, [], ◌∷◌, if◌then◌else◌, ◌==◌, name_eq}
use faasten.Labels.{Labels, Buckle, Component}
use faasten.Fs.World.{Serde}
use faasten.Fs.Parser.Texts.{append}
use faasten.Syscall.Server.{Digest}
use faasten.Bootstrap.{register_user_fsutil}
use faasten.Webfront.{
  WebRequest, WebContent, WebReply, Libraries, Answer, Web, ◌>>=◌, ◌>>◌, pure, refuse, panics,
  ok_or, unwrap, calls,
}
use faasten.Webfront.Init.{failed}
use faasten.Webfront.App.{claims_at, connection, delegate, faasten_invoke, whoami}

-- The arms of the router, with what stands in the address.
pub data Route : Type 0 where
  options login_cas login_github : Route
  authenticate_cas : Option String → Route
  authenticate_github pair_github : Route
  me ping ping_scheduler delegation : Route
  invocation : String → Route
  unknown_route : Route

-- The outcome of the request to the university's server: none where it cannot be sent.
pub data Validation : Type 0 where
  not_sent no_text : Validation
  lines : List String → Validation

module _ ⦃L : Labels⦄ ⦃S : Serde⦄ ⦃D : Digest⦄ ⦃W : Libraries⦄ where
  -- Whether the scheduler answers is given.
  unfoldable pub faasten_ping_scheduler : Bool → Web WebReply
  faasten_ping_scheduler answers = do
    connection
    if answers
        then pure (record { status_code = 204; content = WebContent.empty })
        else refuse 500 (WebContent.error "failed to ping faasten scheduler")

  module _ (validate : String → Validation) (member : String → Component) where
    abbrev pub member_of : List String → Web Component
    member_of (verdict ∷ name ∷ []) =
        if verdict == "yes" then pure (member name) else refuse 400 WebContent.empty
    member_of _ = refuse 400 WebContent.empty

    abbrev pub validated : Validation → Web Component
    validated Validation.not_sent = panics
    validated Validation.no_text = refuse 400 WebContent.empty
    validated (Validation.lines ls) = member_of ls

    unfoldable pub token_for : Component → Web String
    token_for sub s = unwrap (W.sign_with_key (claims_at s.now sub)) s

    unfoldable pub log_in_cas : Buckle → Option String → Web WebReply
    unfolding token_for calls
    log_in_cas label param = do
      ticket ← ok_or 404 WebContent.empty param
      sub ← validated (validate ticket)
      token ← token_for sub
      calls failed (register_user_fsutil label sub sub)
      pure (record { status_code = 200; content = WebContent.page token })

    -- A fixed response.
    abbrev pub plain : ℕ → WebContent → Web WebReply
    plain status content = pure (record { status_code = status; content = content })

    module _ (github : WebRequest → Web WebReply) (pair : WebRequest → Web WebReply) where
      -- `base_url` and `client_id` are of the configuration.
      unfoldable pub routed :
          ℕ → Buckle → String → String → Bool → Route → WebRequest → Web WebReply
      unfolding faasten_ping_scheduler log_in_cas
      routed rounds label base_url client_id answers Route.options request =
          plain 204 WebContent.empty
      routed rounds label base_url client_id answers Route.login_cas request = plain 302 (
          WebContent.redirect (
            append (append "https://fed.princeton.edu/cas/login?service=" base_url)
              "/authenticate/cas"))
      routed rounds label base_url client_id answers (Route.authenticate_cas ticket) request =
          log_in_cas label ticket
      routed rounds label base_url client_id answers Route.login_github request = plain 302 (
          WebContent.redirect (
            append (append "https://github.com/login/oauth/authorize?client_id=" client_id)
              "&scope=repo:invites"))
      routed rounds label base_url client_id answers Route.authenticate_github request =
          github request
      routed rounds label base_url client_id answers Route.pair_github request = pair request
      routed rounds label base_url client_id answers Route.me request = whoami request
      routed rounds label base_url client_id answers Route.ping request =
          plain 200 (WebContent.text "Pong.")
      routed rounds label base_url client_id answers Route.ping_scheduler request =
          faasten_ping_scheduler answers
      routed rounds label base_url client_id answers (Route.invocation gate_path) request =
          faasten_invoke rounds gate_path request
      routed rounds label base_url client_id answers Route.delegation request =
          delegate label request
      routed rounds label base_url client_id answers Route.unknown_route request =
          plain 404 WebContent.empty

      -- `unwrap_or_else(|e| e)`: a response is sent either way.
      abbrev pub either_way : Answer WebReply → Answer WebReply
      either_way (Answer.refused r) = Answer.ok r
      either_way a = a

      unfoldable pub handle :
          ℕ → Buckle → String → String → Bool → Route → WebRequest → Web WebReply
      unfolding routed
      handle rounds label base_url client_id answers route request s =
          let (r, t) = routed rounds label base_url client_id answers route request s in
          (either_way r, t)
