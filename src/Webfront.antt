-- ===== src/Webfront.antt =====
-- The web front end: what frontends/webfront/src/app.rs and frontends/webfront/src/init.rs share.
--
-- The state is the file system and the blob store, the connection to the scheduler with what was
-- sent on it and what comes back, and the clock. What the code takes of other crates is the
-- interface Libraries: tokens (jwt), JSON (serde_json), statuses that count as success (rouille),
-- and lower case and decimal numbers as texts. A request is given with its parts as rouille and mime
-- read them.
pub mod Init
pub mod App
pub mod Routes
pub mod Gives
pub mod Delegated
pub mod Cleared
pub mod Quiet
pub mod Payloads
pub mod Permitted
pub mod Sends
pub mod Hidden
use Prim.Native.Char.{code}
use faasten.Base.{
  ℕ, ◌≡◌, String, Bool, true, false, ◌||◌, Option, none, some, List, ◌==◌, if◌then◌else◌, number_eq,
}
use faasten.Base.Dict.{Dict}
use faasten.Labels.{Labels, Buckle, Component}
use faasten.Fs.Errors.{FsError}
use faasten.Fs.Types.{File}
use faasten.Fs.World.{Serde, Outcome}
use faasten.Syscall.Messages.{TaskReturn}
use faasten.Syscall.Server.{Server, Call}
use faasten.Sched.Protocol.{InvokeMessage}
use faasten.Sched.HttpReply.{Content}

-- Whether a space is in a text.
abbrev pub has_space : String → Bool
has_space String.[] = false
has_space (String.◌∷◌ c s) = code c == b' ' || has_space s

-- `split(" ").last()`.
unfoldable pub last_part : String → String
last_part String.[] = String.[]
last_part (String.◌∷◌ c s) =
    let rest = last_part s in if code c == b' ' || has_space s then rest else String.◌∷◌ c s

pub record Delegate : Type 0 where
  pub component : String
  pub bootstrap : Bool
  pub clearance : Option String

pub record UploadedFile : Type 0 where
  pub filename : Option String
  pub bytes : File

-- A form: its files, its payload and its label.
pub record Form : Type 0 where
  pub blob : List UploadedFile
  pub payload : String
  pub label : Option String

pub data Media : Type 0 where
  multipart json other unknown : Media

pub record WebRequest : Type 0 where
  pub authorization : Option String
  pub content_type : Option Media
  pub faasten_label : Option String
  pub headers : Dict String String
  -- None where the form cannot be read.
  pub form : Option Form
  -- None where the body was taken before, and its text, if it is one.
  pub body : Option (Option String)

module _ ⦃L : Labels⦄ where
  pub record Claims : Type 0 where
    pub alg : String
    pub iat : ℕ
    pub exp : ℕ
    pub sub : Component

  pub data WebContent : Type 0 where
    empty : WebContent
    error text page redirect : String → WebContent
    fs_error : FsError → WebContent
    -- The text of an error of another crate.
    described : WebContent
    user : Component → WebContent
    unauthorized : Buckle → Buckle → Component → WebContent
    from_task : Content → WebContent

  pub record WebReply : Type 0 where
    pub status_code : ℕ
    pub content : WebContent

  pub record Libraries : Type 0 where
    pub verify_with_key : String → Option Claims
    pub sign_with_key : Claims → Option String
    pub verify-sign :
        (c : Claims) (t : String) → sign_with_key c ≡ some t → verify_with_key t ≡ some c
    -- A token is letters, digits, dashes, underscores and dots.
    pub has_space-sign : (c : Claims) (t : String) → sign_with_key c ≡ some t → has_space t ≡ false
    pub normalise_json : String → Option File
    pub read_delegate : String → Option Delegate
    pub is_success : ℕ → Bool
    pub to_ascii_lowercase : String → String
    pub show_number : ℕ → String

  module _ ⦃S : Serde⦄ where
    -- What a read of an answer of the scheduler comes to.
    pub data Received : Type 0 where
      unreadable undecodable : Received
      received : TaskReturn → Received

    pub record Front : Type 0 where
      pub server : Server
      pub sent : List InvokeMessage
      -- Whether the pool has a connection, whether it can be sent on, and what is read.
      pub connected : Bool
      pub accepts : Bool
      pub returns : Received
      pub now : ℕ

    -- A response, or one that is returned as an error.
    pub data Answer (A : Type 0) : Type 0 where
      ok : A → Answer A
      refused : WebReply → Answer A
      panic diverges : Answer A

    abbrev pub Web : Type 0 → Type 0
    Web A = Front → Answer A × Front

    abbrev pub next : {A B : Type 0} → Answer A → (A → Web B) → Web B
    next (ok a) f s = f a s
    next (refused r) f s = (refused r, s)
    next panic f s = (panic, s)
    next diverges f s = (diverges, s)

    infixl 10 ◌>>=◌ ◌>>◌
    unfoldable pub ◌>>=◌ : {A B : Type 0} → Web A → (A → Web B) → Web B
    ◌>>=◌ m f s = let (r, s') = m s in next r f s'

    abbrev pub ◌>>◌ : {A B : Type 0} → Web A → Web B → Web B
    m >> n = m >>= λ _. n

    abbrev pub pure : {A : Type 0} → A → Web A
    pure a s = (ok a, s)

    abbrev pub refuse : {A : Type 0} → ℕ → WebContent → Web A
    refuse status content s = (refused (record { status_code = status; content = content }), s)

    abbrev pub panics : {A : Type 0} → Web A
    panics s = (panic, s)

    -- `ok_or(..)?`.
    abbrev pub ok_or : {A : Type 0} → ℕ → WebContent → Option A → Web A
    ok_or status content none = refuse status content
    ok_or status content (some a) = pure a

    abbrev pub unwrap : {A : Type 0} → Option A → Web A
    unwrap none = panics
    unwrap (some a) = pure a

    abbrev pub answered : {A : Type 0} → (FsError → WebReply) → Outcome A → Answer A
    answered f (Outcome.ok a) = ok a
    answered f (Outcome.err e) = refused (f e)
    answered f Outcome.panic = panic
    answered f Outcome.diverges = diverges

    -- An operation of the file system or the blob store, with the response to its error.
    unfoldable pub calls : {A : Type 0} → (FsError → WebReply) → Call A → Web A
    calls f m s = let (r, t) = m s.server in (answered f r, record s { server = t })

    abbrev pub bad_request : WebContent → FsError → WebReply
    bad_request c e = record { status_code = 400; content = c }
