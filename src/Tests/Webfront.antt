-- ===== src/Tests/Webfront.antt =====
-- The web front end at concrete requests.
use faasten.Base.{
  length, ℕ, ◌≡◌, refl, ap, ◌∙◌, sym, subst, String, Bool, true, false, Option, none, some, List,
  [], ◌∷◌, leb, ltb, ◌&&◌, if◌then◌else◌, ◌==◌, name_eq, number_eq, ℕ_discrete, arith,
}
use faasten.Labels.{can_flow_to_with_privilege, implies}
use faasten.Fs.Parser.Texts.{append}
use faasten.Syscall.Messages.{TaskReturn, ReturnCode}
use faasten.Webfront.{
  has_space, last_part, Claims, Libraries, WebRequest, WebReply, WebContent, Media, Received, Front,
  Answer, ◌>>=◌,
}
use faasten.Webfront.App.{verify_jwt, principal, issue, delegate_to, delegate}
use faasten.Webfront.Init.{init}
use faasten.Webfront.Delegated.{itself, delegated, login_of, Obtained-implies}
use faasten.Webfront.Quiet.{Sends}
use faasten.Webfront.Permitted.{Permitted}
use faasten.Webfront.Sends.{init-Sends}
use faasten.Webfront.Quiet.{with_returns}
use faasten.Webfront.Hidden.{init-hides}
use faasten.Tests.Setup.{number_labels, doc_serde, string_discrete}
use faasten.Tests.Syscall.{one_digest, server}

abbrev root_claims : Claims
root_claims = record { alg = "ES256"; iat = 1; exp = 601; sub = 9 }

abbrev signed_claims : Claims
signed_claims = record { alg = "ES256"; iat = 100; exp = 700; sub = 0 }

Claims-discrete : Discrete Claims
Claims-discrete = hlevel (string_discrete, ℕ_discrete)

abbrev token_if : {P : Type 0} → Dec P → Option String
token_if (yes p) = some "token"
token_if (no n) = none

unfoldable sign : Claims → Option String
unfolding Claims-discrete string_discrete ℕ_discrete
sign c = token_if (Claims-discrete c signed_claims)

abbrev verify : String → Option Claims
verify t =
    if t == "token" then some signed_claims else if t == "root" then some root_claims else none

token_if-verify :
    (c : Claims) (d : Dec (c ≡ signed_claims)) (t : String)
    → token_if d ≡ some t
    → verify t ≡ some c
token_if-verify c (yes p) t e =
    let h : "token" ≡ t = cc in subst (λ u. verify u ≡ some c) h (ap some (sym p))
token_if-verify c (no n) t e = cc

token_if-has_space :
    (c : Claims) (d : Dec (c ≡ signed_claims)) (t : String)
    → token_if d ≡ some t
    → has_space t ≡ false
token_if-has_space c (yes p) t e =
    let h : "token" ≡ t = cc in subst (λ u. has_space u ≡ false) h refl
token_if-has_space c (no n) t e = cc

verify-sign : (c : Claims) (t : String) → sign c ≡ some t → verify t ≡ some c
unfolding sign
verify-sign c t e = token_if-verify c (Claims-discrete c signed_claims) t e

has_space-sign : (c : Claims) (t : String) → sign c ≡ some t → has_space t ≡ false
unfolding sign
has_space-sign c t e = token_if-has_space c (Claims-discrete c signed_claims) t e

instance abbrev libraries : Libraries
libraries = record {
  verify_with_key = verify;
  sign_with_key = sign;
  verify-sign = verify-sign;
  has_space-sign = has_space-sign;
  normalise_json = λ t. some (1 ∷ []);
  read_delegate = λ t. some (record { component = "alice"; bootstrap = false; clearance = none });
  is_success = λ n. leb 200 n && ltb n 400;
  to_ascii_lowercase = λ t. t;
  show_number = λ n. "0";
}

abbrev request : WebRequest
request = record {
  authorization = some "Bearer root";
  content_type = some Media.json;
  faasten_label = some "T,T";
  headers = ("authorization", "Bearer root") ∷ ("accept", "*/*") ∷ [];
  form = none;
  body = some (some "{}");
}

abbrev front : Front
front = record {
  server = server;
  sent = [];
  connected = true;
  accepts = true;
  returns = Received.received (record {
    code = ReturnCode.success;
    payload = some (record { body = none; status_code = 200 });
    label = some (0, 0);
  });
  now = 100;
}

abbrev token_reply : WebReply
token_reply = record { status_code = 200; content = WebContent.text "token" }

delegation : (delegate (0, 9) request front).0 ≡ Answer.ok token_reply
unfolding delegate verify_jwt delegate_to principal issue last_part ◌>>=◌ sign Claims-discrete
    string_discrete ℕ_discrete faasten.Base.Bool-cases
delegation = refl

init-Sends_example :
    Sends
      (Permitted 3 (some 9) "a" request front.server.world)
      []
      (init 3 (some 9) "a" request front).1
init-Sends_example = init-Sends 3 (some 9) "a" request front

-- A result under a secret label, and another one.
abbrev secret_result : TaskReturn
secret_result = record {
  code = ReturnCode.success;
  payload = some (record { body = none; status_code = 200 });
  label = some (4, 9);
}

abbrev other_result : TaskReturn
other_result = record { code = ReturnCode.launch_failed; payload = none; label = some (4, 9) }

abbrev after_secret : Front
after_secret =
    (init 3 (some 3) "a" request (with_returns (Received.received secret_result) front)).1

secret_run :
    (length after_secret.sent ≡ 1)
    × (can_flow_to_with_privilege (4, 9) after_secret.server.world.label 3 ≡ false)
unfolding init faasten.Webfront.Init.collect_headers faasten.Webfront.Init.parts_of
    faasten.Webfront.Init.save_files faasten.Webfront.Init.prepare_payload
    faasten.Webfront.Init.set_labels faasten.Webfront.Init.parse_path
    faasten.Webfront.Init.prepare_labeled_invoke faasten.Webfront.Init.submit
    faasten.Webfront.Init.may_read faasten.Webfront.Init.unreadable
    faasten.Webfront.Init.take_result faasten.Webfront.Init.wait_for_completion ◌>>=◌
    faasten.Syscall.Server.on_fs faasten.Fs.Utils.clear_label faasten.Fs.Utils.set_my_privilege
    faasten.Fs.Utils.taint_with_label faasten.Fs.Parser.parse
    faasten.Fs.Utils.resolve_gate_with_clearance_check faasten.Fs.World.◌>>=◌
    faasten.Fs.Ops.read_path faasten.Fs.Ops.root faasten.Fs.Object.get faasten.Fs.World.backing_get
    faasten.Fs.Object.unlabel faasten.Fs.Ops.walk faasten.Base.Dict.get
    faasten.Fs.Object.gate_to_invokable faasten.Fs.Object.get_labeled faasten.Fs.Object.resolve_loop
    faasten.Base.Dict.insert faasten.Fs.Object.list faasten.Fs.Ops.read_components
    faasten.Fs.Ops.step_path faasten.Fs.Parser.before_end faasten.Fs.Parser.component_of
    faasten.Fs.Parser.components_of faasten.Fs.Parser.label_in faasten.Fs.Parser.split
    faasten.Fs.Parser.trim_end faasten.Fs.Parser.trim_front faasten.Fs.Utils.check_clearance
    faasten.Fs.Utils.get_current_label faasten.Fs.Utils.get_privilege faasten.Fs.World.settle
    faasten.Fs.World.write_all faasten.Sched.HttpReply.http_reply faasten.Webfront.calls
secret_run = (refl, refl)

init-hides_example :
    (init 3 (some 3) "a" request (with_returns (Received.received secret_result) front)).0
    ≡ (init 3 (some 3) "a" request (with_returns (Received.received other_result) front)).0
init-hides_example =
    init-hides 3 (some 3) "a" request front secret_result other_result (4, 9) refl refl secret_run.1

Obtained-implies_example :
    (q : Claims) × (login_of (append "Bearer " "token") ≡ some q) × (implies 9 q.sub ≡ true)
unfolding last_part
Obtained-implies_example =
    Obtained-implies (0, 9) "Bearer root" (append "Bearer " "token") root_claims
      (delegated "Bearer root" request front token_reply "token" itself refl delegation refl) refl
