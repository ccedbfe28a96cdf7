-- ===== src/Webfront/Permitted.antt =====
-- Which messages frontends/webfront/src/init.rs prepares for a user.
use faasten.Base.{ℕ, ◌≡◌, refl, ap, subst, ◌∙◌, String, true, Option, none, some, name_eq}
use faasten.Fs.Parser
use faasten.Labels.{Labels, Component, Buckle, can_flow_to, public, lub}
use faasten.Fs.Types.{Function}
use faasten.Fs.World.{Serde, World, Outcome}
use faasten.Fs.Path.{FilePath}
use faasten.Fs.Parser.{Parsed}
use faasten.Fs.Utils.{
  clear_label, set_my_privilege, taint_with_label, get_current_label, get_privilege,
  resolve_gate_with_clearance_check,
}
use faasten.Syscall.Server.{Digest, on_fs}
use faasten.Sched.Protocol.{InvokeMessage}
use faasten.Webfront.{WebRequest, Libraries, Front, ◌>>=◌, calls, answered}
use faasten.Webfront.Init.{
  Payload, or_public, set_labels, parse_path, path_or_refuse, prepare_labeled_invoke,
  cannot_resolve,
}
use faasten.Webfront.Gives.{Gives, Gives-bind}
use faasten.Webfront.Cleared.{Cleared, After, Resolved, resolve-Resolved}
use faasten.Webfront.Quiet.{asked}
use faasten.Webfront.Payloads.{NoAuthorization, FromRequest}

module _ ⦃L : Labels⦄ ⦃S : Serde⦄ ⦃D : Digest⦄ ⦃W : Libraries⦄ where
  -- The world that a user's thread starts to read in: its label is the one asked for, and its
  -- privilege the user's.
  abbrev pub start_world : Option Component → Option Buckle → World → World
  start_world login none w = record w { label = public; privilege = or_public login }
  start_world login (some l) w = record w { label = lub public l; privilege = or_public login }

  pub set_labels-start :
      (login : Option Component) (label : Option Buckle) (s : Front)
      → Gives
          (λ _ t. t.server.world ≡ start_world login label s.server.world)
          (set_labels login label s)
  unfolding set_labels calls on_fs clear_label set_my_privilege taint_with_label ◌>>=◌
  set_labels-start login none s = refl
  set_labels-start login (some l) s = refl

  -- The label of the payload is the one asked for, and the world is that at the start.
  pub started :
      (login : Option Component) (label label' : Option Buckle) (w w' : World) {v : World}
      → v ≡ start_world login label w
      → label ≡ label'
      → w ≡ w'
      → v ≡ start_world login label' w'
  started login label label' w w' h e k =
      h ∙ ap (λ o. start_world login o w) e ∙ ap (start_world login label') k

  start-privilege :
      (login : Option Component) (label : Option Buckle) (w : World)
      → (start_world login label w).privilege ≡ or_public login
  start-privilege login none w = refl
  start-privilege login (some l) w = refl

  start-flows :
      (login : Option Component) (label : Option Buckle) (w : World) (l : Buckle)
      → label ≡ some l
      → can_flow_to l (start_world login label w).label ≡ true
  start-flows login none w l e = cc
  start-flows login (some k) w l e =
      subst (λ x. can_flow_to x (lub public k) ≡ true) (cc e) (L.join_right public k)

  -- A message that may be sent for a user in the world `w`. The path is read as one, and it names a
  -- gate, in that world with the label asked for and the user's privilege; the message has the function
  -- and the privilege of the direct gate that this gate leads to, whose clearance the user's privilege
  -- implies, and the label after these reads; the user is the invoker; the label asked for can flow to
  -- its label; and there is no header `authorization`.
  pub record Permitted (rounds : ℕ) (login : Option Component) (gate_path : String)
      (request : WebRequest) (w : World) (m : InvokeMessage) : Type 0 where
    pub path : FilePath
    pub function : Function
    pub privilege : Component
    pub after : World
    pub path_is : Parser.parse gate_path (start_world login (asked request) w) ≡ Parsed.ok path
    pub resolved :
        Cleared rounds path (start_world login (asked request) w) function privilege after
    pub function_is : m.function ≡ some function
    pub privilege_is : m.gate_privilege ≡ some privilege
    pub label_is : m.label ≡ some after.label
    pub invoker_is : m.invoker ≡ some (or_public login)
    pub tainted : (l : Buckle) → asked request ≡ some l → can_flow_to l after.label ≡ true
    pub headers_clean : NoAuthorization m.headers

  answered-Gives :
      (rounds : ℕ) (path : FilePath) (w : World) (r : Outcome (Function × Component)) (u : World)
      (s : Front)
      → After (Resolved rounds path w) (r, u)
      → Gives
          (λ x t. Resolved rounds path w x t.server.world)
          (answered cannot_resolve r, record s { server = record s.server { world = u } })
  answered-Gives rounds path w (Outcome.ok x) u s h = h
  answered-Gives rounds path w (Outcome.err e) u s h = tt
  answered-Gives rounds path w Outcome.panic u s h = tt
  answered-Gives rounds path w Outcome.diverges u s h = tt

  resolve-Gives :
      (rounds : ℕ) (path : FilePath) (s : Front)
      → Gives
          (λ r t. Resolved rounds path s.server.world r t.server.world)
          (calls cannot_resolve (on_fs (resolve_gate_with_clearance_check rounds path)) s)
  unfolding calls on_fs
  resolve-Gives rounds path s =
      answered-Gives rounds path s.server.world _ _ s (resolve-Resolved rounds path s.server.world)

  path_or-Gives :
      (o : Parsed FilePath) (s : Front)
      → Gives (λ path t. (o ≡ Parsed.ok path) × (t ≡ s)) (path_or_refuse o s)
  path_or-Gives (Parsed.err e) s = tt
  path_or-Gives (Parsed.ok p) s = (refl, refl)

  parse_path-Gives :
      (t : String) (s : Front)
      → Gives
          (λ path u. (Parser.parse t s.server.world ≡ Parsed.ok path) × (u ≡ s))
          (parse_path t s)
  unfolding parse_path
  parse_path-Gives t s = path_or-Gives _ s

  -- The message that is prepared in the world `v`, the start of a user's reads in `w`.
  pub prepare-Permitted :
      (rounds : ℕ) (login : Option Component) (gate_path : String) (request : WebRequest)
      (w : World) (p : Payload) (s : Front)
      → FromRequest request p
      → s.server.world ≡ start_world login (asked request) w
      → Gives
          (λ m t.
            Permitted rounds login gate_path request w m
            × (t.server.world.privilege ≡ or_public login))
          (prepare_labeled_invoke rounds gate_path p s)
  unfolding prepare_labeled_invoke calls on_fs get_current_label get_privilege ◌>>=◌
  prepare-Permitted rounds login gate_path request w p s f h =
      let R : InvokeMessage → Front → Type 0 = λ m t.
        Permitted rounds login gate_path request w m
        × (t.server.world.privilege ≡ or_public login) in
      Gives-bind (λ path t. (Parser.parse gate_path s.server.world ≡ Parsed.ok path) × (t ≡ s)) R
        (parse_path gate_path) _ s (parse_path-Gives gate_path s)
        λ path t (parsed, same).
          let g : t.server.world ≡ start_world login (asked request) w =
            ap (λ u. u.server.world) same ∙ h in
          Gives-bind (λ x u. Resolved rounds path t.server.world x u.server.world) R
            (calls cannot_resolve (on_fs (resolve_gate_with_clearance_check rounds path))) _ t
            (resolve-Gives rounds path t)
            λ x u found.
              let (c, rise) = subst (λ v. Resolved rounds path v x u.server.world) g found in
              let kept = rise.privilege_kept ∙ start-privilege login (asked request) w in
              (
                record {
                  path = path;
                  function = x.0;
                  privilege = x.1;
                  after = u.server.world;
                  path_is = subst (λ v. Parser.parse gate_path v ≡ Parsed.ok path) h parsed;
                  resolved = c;
                  function_is = refl;
                  privilege_is = refl;
                  label_is = refl;
                  invoker_is = ap some kept;
                  tainted = λ l e.
                      L.flows_trans l _ _ (start-flows login (asked request) w l e) rise.rises;
                  headers_clean = f.headers_clean;
                },
                kept,
              )
