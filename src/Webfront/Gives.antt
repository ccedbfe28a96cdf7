-- ===== src/Webfront/Gives.antt =====
-- Postconditions of the handlers of frontends/webfront/src.
use faasten.Base.{ℕ, ◌≡◌, refl, subst, Bool, true, false, Option, none, some, if◌then◌else◌}
use faasten.Labels.{Labels}
use faasten.Fs.World.{Serde}
use faasten.Webfront.{WebContent, Front, Answer, Web, next, ◌>>=◌, ok_or, unwrap}

module _ ⦃L : Labels⦄ ⦃S : Serde⦄ where
  -- What holds of a value that is given and of the state after it.
  abbrev pub Gives : {A : Type 0} → (A → Front → Type 0) → Answer A × Front → Type 0
  Gives Q (Answer.ok a, s) = Q a s
  Gives Q (Answer.refused r, s) = Unit
  Gives Q (Answer.panic, s) = Unit
  Gives Q (Answer.diverges, s) = Unit

  Gives-next :
      {A B : Type 0} (Q : A → Front → Type 0) (R : B → Front → Type 0) (r : Answer A) (s : Front)
      (f : A → Web B)
      → Gives Q (r, s)
      → ((a : A) (t : Front) → Q a t → Gives R (f a t))
      → Gives R (next r f s)
  Gives-next Q R (Answer.ok a) s f h k = k a s h
  Gives-next Q R (Answer.refused r) s f h k = tt
  Gives-next Q R Answer.panic s f h k = tt
  Gives-next Q R Answer.diverges s f h k = tt

  any_next :
      {A B : Type 0} (R : B → Front → Type 0) (r : Answer A) (s : Front) (f : A → Web B)
      → ((a : A) (t : Front) → Gives R (f a t))
      → Gives R (next r f s)
  any_next R (Answer.ok a) s f k = k a s
  any_next R (Answer.refused r) s f k = tt
  any_next R Answer.panic s f k = tt
  any_next R Answer.diverges s f k = tt

  pub Gives-bind :
      {A B : Type 0} (Q : A → Front → Type 0) (R : B → Front → Type 0) (m : Web A) (f : A → Web B)
      (s : Front)
      → Gives Q (m s)
      → ((a : A) (t : Front) → Q a t → Gives R (f a t))
      → Gives R ((m >>= f) s)
  unfolding ◌>>=◌
  Gives-bind Q R m f s h k = Gives-next Q R (m s).0 (m s).1 f h k

  -- The forms of a step: any, an option, and a test.
  pub then_any :
      {A B : Type 0} (R : B → Front → Type 0) (m : Web A) (f : A → Web B) (s : Front)
      → ((a : A) (t : Front) → Gives R (f a t))
      → Gives R ((m >>= f) s)
  unfolding ◌>>=◌
  then_any R m f s k = any_next R (m s).0 (m s).1 f k

  pub then_unwrap :
      {A B : Type 0} (R : B → Front → Type 0) (o : Option A) (f : A → Web B) (s : Front)
      → ((a : A) → o ≡ some a → Gives R (f a s))
      → Gives R ((unwrap o >>= f) s)
  unfolding ◌>>=◌
  then_unwrap R none f s k = tt
  then_unwrap R (some a) f s k = k a refl

  pub then_ok_or :
      {A B : Type 0} (R : B → Front → Type 0) (n : ℕ) (c : WebContent) (o : Option A)
      (f : A → Web B) (s : Front)
      → ((a : A) → o ≡ some a → Gives R (f a s))
      → Gives R ((ok_or n c o >>= f) s)
  unfolding ◌>>=◌
  then_ok_or R n c none f s k = tt
  then_ok_or R n c (some a) f s k = k a refl

  pub if_else :
      {A : Type 0} (R : A → Front → Type 0) (b : Bool) (m n : Answer A × Front)
      → (b ≡ true → Gives R m)
      → (b ≡ false → Gives R n)
      → Gives R (if b then m else n)
  if_else R true m n h k = h refl
  if_else R false m n h k = k refl

  pub if_web :
      {A : Type 0} (R : A → Front → Type 0) (b : Bool) (m n : Web A) (s : Front)
      → (b ≡ true → Gives R (m s))
      → (b ≡ false → Gives R (n s))
      → Gives R ((if b then m else n) s)
  if_web R true m n s h k = h refl
  if_web R false m n s h k = k refl

  pub Gives-weaken :
      {A : Type 0} (Q R : A → Front → Type 0) (r : Answer A) (s : Front)
      → ((a : A) (t : Front) → Q a t → R a t)
      → Gives Q (r, s)
      → Gives R (r, s)
  Gives-weaken Q R (Answer.ok a) s k h = k a s h
  Gives-weaken Q R (Answer.refused r) s k h = tt
  Gives-weaken Q R Answer.panic s k h = tt
  Gives-weaken Q R Answer.diverges s k h = tt

  pub given :
      {A : Type 0} (Q : A → Front → Type 0) (r : Answer A) (s : Front) (a : A)
      → r ≡ Answer.ok a
      → Gives Q (r, s)
      → Q a s
  given Q r s a e h = subst (λ u. Gives Q (u, s)) e h
