-- ===== src/Webfront/Quiet.antt =====
-- What of frontends/webfront/src/init.rs sends nothing, and what a request asks for.
use faasten.Base.{
  ℕ, suc, ◌≡◌, refl, ap, ◌∙◌, String, Bool, true, false, Option, none, some, List, [], ◌∷◌,
  if◌then◌else◌, name_eq, inl, ◌⊎◌,
}
use faasten.Base.Dict.{Dict}
use faasten.Labels.{Labels, Component, Buckle, parse_buckle}
use faasten.Fs.Errors.{FsError}
use faasten.Fs.World.{Serde}
use faasten.Syscall.Server.{Digest, Call}
use faasten.Sched.Protocol.{InvokeMessage}
use faasten.Webfront.{
  Received, UploadedFile, Form, Media, WebRequest, WebContent, WebReply, Libraries, Front, Answer,
  Web, next, ◌>>=◌, ok_or, unwrap, calls,
}
use faasten.Webfront.Init.{
  form_label, header_label, read_body, parts_of, save_files, prepare_payload, set_labels,
  start_label,
}
use faasten.Webfront.Gives.{Gives}

module _ ⦃L : Labels⦄ ⦃S : Serde⦄ where
  -- The same state, with this to be read from the scheduler.
  abbrev pub with_returns : Received → Front → Front
  with_returns q s = record s { returns = q }

  -- Nothing is sent, and what is to be read from the scheduler makes no difference.
  pub record Quiet {A : Type 0} (m : Web A) : Type 0 where
    pub at : (s : Front) → (m s).1.sent ≡ s.sent
    pub blind :
        (q : Received) (s : Front) → m (with_returns q s) ≡ ((m s).0, with_returns q (m s).1)

  next-sent :
      {A B : Type 0} (r : Answer A) (s : Front) (f : A → Web B)
      → ((a : A) → Quiet (f a))
      → (next r f s).1.sent ≡ s.sent
  next-sent (Answer.ok a) s f h = (h a).at s
  next-sent (Answer.refused r) s f h = refl
  next-sent Answer.panic s f h = refl
  next-sent Answer.diverges s f h = refl

  next-blind :
      {A B : Type 0} (r : Answer A) (s : Front) (f : A → Web B) (q : Received)
      → ((a : A) → Quiet (f a))
      → next r f (with_returns q s) ≡ ((next r f s).0, with_returns q (next r f s).1)
  next-blind (Answer.ok a) s f q h = (h a).blind q s
  next-blind (Answer.refused r) s f q h = refl
  next-blind Answer.panic s f q h = refl
  next-blind Answer.diverges s f q h = refl

  pub Quiet-bind :
      {A B : Type 0} (m : Web A) (f : A → Web B)
      → Quiet m
      → ((a : A) → Quiet (f a))
      → Quiet (m >>= f)
  unfolding ◌>>=◌
  Quiet-bind m f h k = record {
    at = λ s. next-sent (m s).0 (m s).1 f k ∙ h.at s;
    blind = λ q s. ap (λ x. next x.0 f x.1) (h.blind q s) ∙ next-blind (m s).0 (m s).1 f q k;
  }

  pub Quiet-pure : {A : Type 0} (a : A) → Quiet (λ s. (Answer.ok a, s))
  Quiet-pure a = record { at = λ s. refl; blind = λ q s. refl }

  pub Quiet-ok_or : {A : Type 0} (n : ℕ) (c : WebContent) (o : Option A) → Quiet (ok_or n c o)
  Quiet-ok_or n c none = record { at = λ s. refl; blind = λ q s. refl }
  Quiet-ok_or n c (some a) = record { at = λ s. refl; blind = λ q s. refl }

  pub Quiet-unwrap : {A : Type 0} (o : Option A) → Quiet (unwrap o)
  Quiet-unwrap none = record { at = λ s. refl; blind = λ q s. refl }
  Quiet-unwrap (some a) = record { at = λ s. refl; blind = λ q s. refl }

  pub Quiet-if :
      {A : Type 0} (b : Bool) (m n : Web A) → Quiet m → Quiet n → Quiet (if b then m else n)
  Quiet-if true m n h k = h
  Quiet-if false m n h k = k

  pub Quiet-calls : {A : Type 0} (f : FsError → WebReply) (m : Call A) → Quiet (calls f m)
  unfolding calls
  Quiet-calls f m = record { at = λ s. refl; blind = λ q s. refl }

  -- A message is sent at most, and one that meets `P`.
  abbrev pub Sends : (InvokeMessage → Type 0) → List InvokeMessage → Front → Type 0
  Sends P before t = (t.sent ≡ before) ⊎ ((m : InvokeMessage) × (t.sent ≡ m ∷ before) × P m)

  next-Sends :
      {A B : Type 0} (P : InvokeMessage → Type 0) (Q : A → Front → Type 0)
      (before : List InvokeMessage) (r : Answer A) (s : Front) (f : A → Web B)
      → s.sent ≡ before
      → Gives Q (r, s)
      → ((a : A) → Q a s → Sends P before (f a s).1)
      → Sends P before (next r f s).1
  next-Sends P Q before (Answer.ok a) s f e h k = k a h
  next-Sends P Q before (Answer.refused r) s f e h k = inl e
  next-Sends P Q before Answer.panic s f e h k = inl e
  next-Sends P Q before Answer.diverges s f e h k = inl e

  pub bind-Sends :
      {A B : Type 0} (P : InvokeMessage → Type 0) (Q : A → Front → Type 0)
      (before : List InvokeMessage) (m : Web A) (f : A → Web B) (s : Front)
      → s.sent ≡ before
      → Quiet m
      → Gives Q (m s)
      → ((a : A) (t : Front) → t.sent ≡ before → Q a t → Sends P before (f a t).1)
      → Sends P before ((m >>= f) s).1
  unfolding ◌>>=◌
  bind-Sends P Q before m f s e q h k =
      next-Sends P Q before (m s).0 (m s).1 f (q.at s ∙ e) h (λ a g. k a (m s).1 (q.at s ∙ e) g)

module _ ⦃L : Labels⦄ ⦃S : Serde⦄ ⦃D : Digest⦄ ⦃W : Libraries⦄ where
  -- The label that a request asks for.
  abbrev pub asked_form : Option Form → Option Buckle
  asked_form none = none
  asked_form (some f) = header_label f.label

  abbrev pub asked_for : WebRequest → Option Media → Option Buckle
  asked_for request (some Media.multipart) = asked_form request.form
  asked_for request (some Media.json) = header_label request.faasten_label
  asked_for request _ = none

  abbrev pub asked : WebRequest → Option Buckle
  asked request = asked_for request request.content_type

  save_files-Quiet :
      (fs : List UploadedFile) (i : ℕ) (blobs : Dict String String) → Quiet (save_files fs i blobs)
  unfolding save_files
  save_files-Quiet [] i blobs = Quiet-pure blobs
  save_files-Quiet (f ∷ rest) i blobs = Quiet-bind _ _ (Quiet-calls _ _) λ a.
      Quiet-bind _ _ (Quiet-ok_or _ _ a) λ b. Quiet-bind _ _ (Quiet-calls _ _) λ c.
        Quiet-bind _ _ (Quiet-ok_or _ _ c) λ d.
          Quiet-bind _ _ (Quiet-calls _ _)
            λ e. Quiet-bind _ _ (Quiet-ok_or _ _ e) λ g. save_files-Quiet rest (suc i) _

  read_body-Quiet : (b : Option (Option String)) → Quiet (read_body b)
  read_body-Quiet none = record { at = λ s. refl; blind = λ q s. refl }
  read_body-Quiet (some none) = record { at = λ s. refl; blind = λ q s. refl }
  read_body-Quiet (some (some t)) = record { at = λ s. refl; blind = λ q s. refl }

  form_label-Quiet : (o : Option String) → Quiet (form_label o)
  form_label-Quiet none = Quiet-pure none
  form_label-Quiet (some t) =
      Quiet-bind _ _ (Quiet-ok_or _ _ (parse_buckle t)) λ l. Quiet-pure (some l)

  parts_of-Quiet : (request : WebRequest) (m : Media) → Quiet (parts_of request m)
  unfolding parts_of
  parts_of-Quiet request Media.unknown = record { at = λ s. refl; blind = λ q s. refl }
  parts_of-Quiet request Media.other = record { at = λ s. refl; blind = λ q s. refl }
  parts_of-Quiet request Media.multipart =
      Quiet-bind _ _ (Quiet-ok_or _ _ request.form)
        λ f. Quiet-bind _ _ (form_label-Quiet f.label) λ l. Quiet-pure _
  parts_of-Quiet request Media.json =
      Quiet-bind _ _ (read_body-Quiet request.body) λ t. Quiet-pure _

  pub prepare_payload-Quiet : (request : WebRequest) → Quiet (prepare_payload request)
  unfolding prepare_payload
  prepare_payload-Quiet request = Quiet-bind _ _ (Quiet-ok_or _ _ request.content_type) λ m.
      Quiet-bind _ _ (parts_of-Quiet request m) λ p.
        Quiet-bind _ _ (Quiet-ok_or _ _ (W.normalise_json p.text))
          λ j. Quiet-bind _ _ (save_files-Quiet p.files 0 []) λ b. Quiet-pure _

  start_label-Quiet : (o : Option Buckle) → Quiet (start_label o)
  start_label-Quiet none = Quiet-pure tt
  start_label-Quiet (some l) = Quiet-bind _ _ (Quiet-calls _ _) λ _. Quiet-pure tt

  pub set_labels-Quiet : (login : Option Component) (l : Option Buckle) → Quiet (set_labels login l)
  unfolding set_labels
  set_labels-Quiet login l =
      Quiet-bind _ _ (Quiet-calls _ _)
        λ _. Quiet-bind _ _ (Quiet-calls _ _) λ _. start_label-Quiet l
