-- ===== src/Webfront/Delegated.antt =====
-- What tokens the delegation of frontends/webfront/src/app.rs hands out.
use faasten.Base.{◌≡◌, refl, ap, subst, ◌∙◌, sym, String, true, false, ◌&&◌, ltb, Option, some}
use faasten.Labels.{Labels, Component, Buckle, implies}
use faasten.Fs.World.{Serde}
use faasten.Fs.Parser.Texts.{append}
use faasten.Syscall.Server.{Digest}
use faasten.Webfront.{
  has_space, last_part, Delegate, WebRequest, WebContent, WebReply, Claims, Libraries, Front,
  Answer, ok_or,
}
use faasten.Webfront.App.{
  verify_jwt, principal, issue, delegate_to, delegate, claims_at, bootstrap_for, if_asked,
  body_text,
}
use faasten.Webfront.Gives.{
  Gives, Gives-bind, then_any, then_unwrap, then_ok_or, if_else, if_web, Gives-weaken, given,
}

module _ ⦃L : Labels⦄ ⦃S : Serde⦄ ⦃D : Digest⦄ ⦃W : Libraries⦄ where
  -- Who a header `Authorization` tells.
  abbrev pub login_of : String → Option Claims
  login_of header = W.verify_with_key (last_part header)

  last_part-append : (t : String) → has_space t ≡ false → last_part t ≡ t
  unfolding last_part
  last_part-append String.[] h = refl
  last_part-append (String.◌∷◌ c s) h = rw h refl

  bearer_last : (t : String) → has_space t ≡ false → last_part (append "Bearer " t) ≡ t
  unfolding last_part
  bearer_last t h = last_part-append t h

  -- The token of a response, if it has one, is for such a component.
  pub record TokenFor (P : Component → Type 0) (r : WebReply) : Type 0 where
    pub claims : Claims
    pub token : String
    pub told : r.content ≡ WebContent.text token
    pub login : login_of (append "Bearer " token) ≡ some claims
    pub fits : P claims.sub

  issue-TokenFor :
      (P : Component → Type 0) (p : Component) (s : Front)
      → P p
      → Gives (λ r t. TokenFor P r) (issue p s)
  unfolding issue
  issue-TokenFor P p s h =
      then_unwrap (λ r t. TokenFor P r) (W.sign_with_key (claims_at s.now p)) _ s
        λ token e. record {
          claims = claims_at s.now p;
          token = token;
          told = refl;
          login =
              ap (λ u. W.verify_with_key u) (bearer_last token (W.has_space-sign _ token e))
              ∙ W.verify-sign _ token e;
          fits = h;
        }

  -- The header of a request tells that its sender is `c`.
  pub record Tells (request : WebRequest) (c : Component) : Type 0 where
    pub header : String
    pub claims : Claims
    pub given : request.authorization ≡ some header
    pub login : login_of header ≡ some claims
    pub is_sub : claims.sub ≡ c

  jwt-Tells :
      (request : WebRequest) (s : Front) → Gives (λ c t. Tells request c) (verify_jwt request s)
  unfolding verify_jwt
  jwt-Tells request s =
      then_ok_or (λ c t. Tells request c) 400 WebContent.empty request.authorization _ s
        λ h e.
          then_ok_or (λ c t. Tells request c) 400 WebContent.empty (login_of h) _ s
            λ k e'.
              if_else (λ c t. Tells request c) (ltb k.exp s.now && false) _ _ (λ _. tt)
                λ _. record { header = h; claims = k; given = e; login = e'; is_sub = refl }

  abbrev pub Implied : Component → Component → Type 0
  Implied c q = implies c q ≡ true

  delegate_to-TokenFor :
      (label : Buckle) (login : Component) (d : Delegate) (s : Front)
      → Gives (λ r t. TokenFor (Implied login) r) (delegate_to label login d s)
  unfolding delegate_to
  delegate_to-TokenFor label login d s =
      let R : WebReply → Front → Type 0 = λ r t. TokenFor (Implied login) r in
      then_any R (principal d.component) _ s λ p t.
        if_web R (implies login p) _ _ t
          (λ e.
            then_any R (if_asked d.bootstrap (bootstrap_for label p d.clearance)) _ t
              λ _ u. issue-TokenFor (Implied login) p u e)
          λ _. tt

  delegate-TokenFor :
      (label : Buckle) (request : WebRequest) (s : Front)
      → Gives
          (λ r t. (c : Component) × Tells request c × TokenFor (Implied c) r)
          (delegate label request s)
  unfolding delegate
  delegate-TokenFor label request s =
      let R : WebReply → Front → Type 0 =
        λ r t. (c : Component) × Tells request c × TokenFor (Implied c) r in
      Gives-bind (λ c t. Tells request c) R (verify_jwt request) _ s (jwt-Tells request s)
        λ c t told. then_any R (body_text request.body) _ t λ text u.
          then_any R (ok_or 400 WebContent.described (W.read_delegate text)) _ u λ d v.
            Gives-weaken (λ r t. TokenFor (Implied c) r) R _ _ (λ r x h. (c, told, h))
              (delegate_to-TokenFor label c d v)

  -- What headers somebody with the header `h` can get by delegation, whatever else goes on.
  pub data Obtained (label : Buckle) (h : String) : String → Type 0 where
    itself : Obtained label h h
    delegated :
        (h' : String) (request : WebRequest) (s : Front) (r : WebReply) (token : String)
        → Obtained label h h'
        → request.authorization ≡ some h'
        → (delegate label request s).0 ≡ Answer.ok r
        → r.content ≡ WebContent.text token
        → Obtained label h (append "Bearer " token)

  -- The next delegation: the response of a request with the header of `k`.
  delegated-implies :
      (label : Buckle) (h' : String) (request : WebRequest) (s : Front) (r : WebReply)
      (token : String) (k : Claims)
      → request.authorization ≡ some h'
      → (delegate label request s).0 ≡ Answer.ok r
      → r.content ≡ WebContent.text token
      → login_of h' ≡ some k
      → (q : Claims) × (login_of (append "Bearer " token) ≡ some q) × (implies k.sub q.sub ≡ true)
  delegated-implies label h' request s r token k a e c l =
      let R : WebReply → Front → Type 0 =
        λ r t. (c : Component) × Tells request c × TokenFor (Implied c) r in
      let (p, told, tok) =
        given R (delegate label request s).0 (delegate label request s).1 r e
          (delegate-TokenFor label request s) in
      let same_header : told.header ≡ h' = cc (told.given, a) in
      let same_claims : told.claims ≡ k = cc (ap login_of same_header, told.login, l) in
      let same_token : tok.token ≡ token = cc (tok.told, c) in
      (
        tok.claims,
        subst (λ u. login_of (append "Bearer " u) ≡ some tok.claims) same_token tok.login,
        subst (λ u. implies u tok.claims.sub ≡ true) (sym told.is_sub ∙ ap (λ u. u.sub) same_claims)
            tok.fits,
      )

  -- Whoever logs in with a token that was got by delegation, also by delegation from such a token,
  -- has a component that is implied by that of the login at the start.
  pub Obtained-implies :
      (label : Buckle) (h h' : String) (c : Claims)
      → Obtained label h h'
      → login_of h ≡ some c
      → (q : Claims) × (login_of h' ≡ some q) × (implies c.sub q.sub ≡ true)
  Obtained-implies label h h' c itself l = (c, l, L.entails_refl c.sub)
  Obtained-implies label h h' c (delegated h'' request s r token o a e told) l =
      let (k, l', i) = Obtained-implies label h h'' c o l in
      let (q, l'', j) = delegated-implies label h'' request s r token k a e told l' in
      (q, l'', L.entails_trans _ _ _ i j)
