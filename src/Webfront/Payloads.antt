-- ===== src/Webfront/Payloads.antt =====
-- What frontends/webfront/src/init.rs takes from a request, while the file system is left alone.
use faasten.Base.{
  ℕ, ◌≡◌, refl, ap, ◌∙◌, sym, String, suc, arith, Option, none, some, List, [], ◌∷◌, ◌==◌, name_eq,
  Bool-cases, inl, inr,
}
use faasten.Base.Dict
use faasten.Base.Dict.{Dict, get-insert}
use faasten.Labels.{Labels, parse_buckle}
use faasten.Fs.Types.{File}
use faasten.Fs.Errors.{FsError}
use faasten.Fs.World.{Serde, World, Outcome}
use faasten.Syscall.Server.{
  Digest, NewBlob, Server, Call, on_fs, store_create, store_save, write_all, access,
}
use faasten.Syscall.Privilege.{save-Same}
use faasten.Webfront.{
  UploadedFile, WebReply, Media, WebRequest, WebContent, Libraries, Front, calls, answered,
}
use faasten.Webfront.Init.{
  Parts, Payload, collect_headers, form_label, header_label, read_body, parts_of, save_files,
  prepare_payload, failed,
}
use faasten.Webfront.Gives.{Gives, Gives-bind, then_ok_or}
use faasten.Webfront.Quiet.{asked, asked_for, asked_form}

module _ ⦃L : Labels⦄ ⦃S : Serde⦄ ⦃D : Digest⦄ ⦃W : Libraries⦄ where
  abbrev pub NoAuthorization : Dict String String → Type 0
  NoAuthorization headers = Dict.get "authorization" headers ≡ none

  collect-NoAuthorization :
      (hs found : Dict String String)
      → NoAuthorization found
      → NoAuthorization (collect_headers hs found)
  unfolding collect_headers
  collect-NoAuthorization [] found h = h
  collect-NoAuthorization ((k, v) ∷ rest) found h =
      elim (Bool-cases (W.to_ascii_lowercase k == "authorization")) [
        | inl e ↦ rw e (collect-NoAuthorization rest found h)
        | inr e ↦ rw e (
            collect-NoAuthorization rest _
              (get-insert (W.to_ascii_lowercase k) "authorization" v found ∙ rw e h))
      ]

  -- What the payload of a request has.
  pub record FromRequest (request : WebRequest) (p : Payload) : Type 0 where
    pub label_is : p.label ≡ asked request
    pub headers_clean : NoAuthorization p.headers

  form_label-Gives :
      (o : Option String) (s : Front)
      → Gives (λ l t. (l ≡ header_label o) × (t ≡ s)) (form_label o s)
  form_label-Gives none s = (refl, refl)
  form_label-Gives (some t) s =
      then_ok_or (λ l u. (l ≡ parse_buckle t) × (u ≡ s)) 400 WebContent.described (parse_buckle t) _
        s λ l e. (sym e, refl)

  read_body-Gives : (o : Option (Option String)) (s : Front) → Gives (λ _ t. t ≡ s) (read_body o s)
  read_body-Gives none s = tt
  read_body-Gives (some none) s = tt
  read_body-Gives (some (some t)) s = refl

  -- The parts of a request, in the same state.
  abbrev pub Divided : WebRequest → Front → Parts → Front → Type 0
  Divided request s p t = (p.label ≡ asked request) × NoAuthorization p.headers × (t ≡ s)

  parts_of-Gives :
      (request : WebRequest) (m : Media) (s : Front)
      → request.content_type ≡ some m
      → Gives (Divided request s) (parts_of request m s)
  unfolding parts_of Dict.get
  parts_of-Gives request Media.unknown s e = tt
  parts_of-Gives request Media.other s e = tt
  parts_of-Gives request Media.multipart s e =
      then_ok_or (Divided request s) 400 _ request.form _ s λ form e2.
        Gives-bind (λ l t. (l ≡ header_label form.label) × (t ≡ s)) (Divided request s)
          (form_label form.label) _ s (form_label-Gives form.label s)
          λ l t (h, same). (
            h ∙ sym (ap (asked_for request) e ∙ ap asked_form e2),
            collect-NoAuthorization request.headers [] refl,
            same,
          )
  parts_of-Gives request Media.json s e =
      Gives-bind (λ _ t. t ≡ s) (Divided request s) (read_body request.body) _ s
        (read_body-Gives request.body s)
        λ text t same.
          (sym (ap (asked_for request) e), collect-NoAuthorization request.headers [] refl, same)

  -- A state in which the world is `w`.
  abbrev In : {A : Type 0} → World → A → Front → Type 0
  In w a t = t.server.world ≡ w

  answered-kept :
      {A : Type 0} (w : World) (f : FsError → WebReply) (r : Outcome A) (s : Front)
      → s.server.world ≡ w
      → Gives (In w) (answered f r, s)
  answered-kept w f (Outcome.ok x) s h = h
  answered-kept w f (Outcome.err e) s h = tt
  answered-kept w f Outcome.panic s h = tt
  answered-kept w f Outcome.diverges s h = tt

  -- The file system is left alone while the files are saved.
  calls-kept :
      {A : Type 0} (w : World) (f : FsError → WebReply) (m : Call A) (s : Front)
      → ((t : Server) → (m t).1.world ≡ t.world)
      → s.server.world ≡ w
      → Gives (In w) (calls f m s)
  unfolding calls
  calls-kept w f m s k h =
      answered-kept w f (m s.server).0 (record s { server = (m s.server).1 }) (k s.server ∙ h)

  create-world : (s : Server) → (store_create s).1.world ≡ s.world
  unfolding store_create faasten.Syscall.Server.◌>>=◌ access
  create-world s = ground arith

  write-world : (b : NewBlob) (bytes : File) (s : Server) → (write_all b bytes s).1.world ≡ s.world
  unfolding write_all faasten.Syscall.Server.◌>>=◌ access
  write-world b bytes s = ground arith

  save-world : (b : NewBlob) (s : Server) → (store_save b s).1.world ≡ s.world
  save-world b s = (save-Same b s.io s).world_same

  save_files-kept :
      (w : World) (fs : List UploadedFile) (i : ℕ) (blobs : Dict String String) (s : Front)
      → s.server.world ≡ w
      → Gives (In w) (save_files fs i blobs s)
  unfolding save_files
  save_files-kept w [] i blobs s h = h
  save_files-kept w (f ∷ rest) i blobs s h =
      Gives-bind (In w) (In w) (calls failed store_create) _ s
        (calls-kept w failed store_create s create-world h)
        λ created t h₁. then_ok_or (In w) 500 _ created _ t λ b _.
          Gives-bind (In w) (In w) (calls failed (write_all b f.bytes)) _ t
            (calls-kept w failed (write_all b f.bytes) t (write-world b f.bytes) h₁)
            λ written u h₂. then_ok_or (In w) 500 _ written _ u λ b' _.
              Gives-bind (In w) (In w) (calls failed (store_save b')) _ u
                (calls-kept w failed (store_save b') u (save-world b') h₂)
                λ saved v h₃.
                  then_ok_or (In w) 500 _ saved _ v λ blob _. save_files-kept w rest (suc i) _ v h₃

  pub payload-FromRequest :
      (request : WebRequest) (s : Front)
      → Gives
          (λ p t. FromRequest request p × (t.server.world ≡ s.server.world))
          (prepare_payload request s)
  unfolding prepare_payload
  payload-FromRequest request s =
      let R : Payload → Front → Type 0 =
        λ p t. FromRequest request p × (t.server.world ≡ s.server.world) in
      then_ok_or R 400 _ request.content_type _ s λ m e.
        Gives-bind (Divided request s) R (parts_of request m) _ s (parts_of-Gives request m s e)
          λ p t h. then_ok_or R 400 _ (W.normalise_json p.text) _ t λ j _.
            Gives-bind (In s.server.world) R (save_files p.files 0 []) _ t
              (save_files-kept s.server.world p.files 0 [] t (ap (λ u. u.server.world) h.2))
              λ b u k. (record { label_is = h.0; headers_clean = h.1 }, k)
