-- ===== src/Fs/World/Steps.antt =====
-- What an action may do to the world: a policy is a preorder on worlds that the accesses of the
-- backing store and a taint keep to, and there is one rule for each way to build an action.
use faasten.Base.{
  ℕ, Bool, true, false, Option, none, some, List, Bool-cases, inl, inr, is_some, if◌then◌else◌,
}
use faasten.Labels.{Labels, Buckle, lub}
use faasten.Fs.Errors.{FsError}
use faasten.Fs.World.{
  Serde, Outcome, ok, err, panic, diverges, World, Action, Bytes, continue, ◌>>=◌, pure, throw,
  panics, forever, unwrap, ok_or, return_if, gets, ensure, taint, raise_label, set_draws,
  with_rounds, settle, write_at, same_bytes, backing_get, backing_put, backing_add, backing_cas,
}

module _ ⦃L : Labels⦄ ⦃S : Serde⦄ where
  pub record Policy : Type 1 where
    pub R : World → World → Type 0
    pub refl_at : (w : World) → R w w
    pub trans_at : (u v w : World) → R u v → R v w → R u w
    pub on_settle : (w : World) → R w (settle w)
    pub on_write :
        (w : World) (k : ℕ) (v : Bytes) → R w (record w { store = write_at k (some v) w.store })
    pub on_draw : (w : World) (drawn : List ℕ) → R w (record w { draws = drawn })
    pub on_taint : (w : World) (l : Buckle) → R w (record w { label = lub l w.label })
    pub on_raise : (w : World) (l : Buckle) → R w (record w { label = lub w.label l })

  pub record Steps {ℓ} (p : Policy) {A : Type ℓ} (m : Action A) : Type 0 where
    pub at : (w : World) → p.R w (m w).1

module _ {ℓ} ⦃L : Labels⦄ ⦃S : Serde⦄ {p : Policy} {A : Type ℓ} where
  pub Steps-pure : (a : A) → Steps p (pure a)
  unfolding pure
  Steps-pure a = record { at = p.refl_at }

  pub Steps-throw : (e : FsError) → Steps p (throw {A = A} e)
  unfolding throw
  Steps-throw e = record { at = p.refl_at }

  pub Steps-panics : Steps p (panics {A = A})
  unfolding panics
  Steps-panics = record { at = p.refl_at }

  pub Steps-forever : Steps p (forever {A = A})
  unfolding forever
  Steps-forever = record { at = p.refl_at }

  pub Steps-unwrap : (o : Option A) → Steps p (unwrap o)
  unfolding unwrap
  Steps-unwrap none = record { at = p.refl_at }
  Steps-unwrap (some a) = record { at = p.refl_at }

  pub Steps-return_if : (o : Option A) (m : Action A) → Steps p m → Steps p (return_if o m)
  unfolding return_if
  Steps-return_if none m h = record { at = h.at }
  Steps-return_if (some a) m h = record { at = p.refl_at }

  pub Steps-ok_or : (e : FsError) (o : Option A) → Steps p (ok_or e o)
  unfolding ok_or
  Steps-ok_or e none = record { at = p.refl_at }
  Steps-ok_or e (some a) = record { at = p.refl_at }

  pub Steps-gets : (f : World → A) → Steps p (gets f)
  unfolding gets
  Steps-gets f = record { at = p.refl_at }

  pub Steps-with_rounds : (f : ℕ → Action A) → ((n : ℕ) → Steps p (f n)) → Steps p (with_rounds f)
  unfolding with_rounds
  Steps-with_rounds f h = record { at = λ w. (h _).at w }

  pub Steps-if : (b : Bool) (m n : Action A) → Steps p m → Steps p n → Steps p (if b then m else n)
  Steps-if true m n km kn = km
  Steps-if false m n km kn = kn

module _ ⦃L : Labels⦄ ⦃S : Serde⦄ where
  settle_write :
      (p : Policy) (k : ℕ) (v : Bytes) (w : World)
      → p.R w (record (settle w) { store = write_at k (some v) (settle w).store })
  settle_write p k v w = p.trans_at w (settle w) _ (p.on_settle w) (p.on_write (settle w) k v)

module _ ⦃L : Labels⦄ ⦃S : Serde⦄ {p : Policy} where
  pub Steps-ensure : (test : World → Bool) (e : FsError) → Steps p (ensure test e)
  unfolding ensure
  Steps-ensure test e = record { at = p.refl_at }

  pub Steps-backing_get : (k : ℕ) → Steps p (backing_get k)
  unfolding backing_get
  Steps-backing_get k = record { at = p.on_settle }

  pub Steps-backing_put : (k : ℕ) (v : Bytes) → Steps p (backing_put k v)
  unfolding backing_put
  Steps-backing_put k v = record { at = settle_write p k v }

  pub Steps-backing_add : (k : ℕ) (v : Bytes) → Steps p (backing_add k v)
  unfolding backing_add
  Steps-backing_add k v = record {
    at = λ w. elim (Bool-cases (is_some ((settle w).store k))) [
      | inl e ↦ rw (e, backing_add) (p.on_settle w)
      | inr e ↦ rw (e, backing_add) (settle_write p k v w)
    ];
  }

  pub Steps-backing_cas : (k : ℕ) (e : Option Bytes) (v : Bytes) → Steps p (backing_cas k e v)
  unfolding backing_cas
  Steps-backing_cas k e v = record {
    at = λ w. elim (Bool-cases (same_bytes e ((settle w).store k))) [
      | inl h ↦ rw (h, backing_cas) (settle_write p k v w)
      | inr h ↦ rw (h, backing_cas) (p.on_settle w)
    ];
  }

  pub Steps-taint : (l : Buckle) → Steps p (taint l)
  unfolding taint
  Steps-taint l = record { at = λ w. p.on_taint w l }

  pub Steps-raise_label : (l : Buckle) → Steps p (raise_label l)
  unfolding raise_label
  Steps-raise_label l = record { at = λ w. p.on_raise w l }

  pub Steps-set_draws : (drawn : List ℕ) → Steps p (set_draws drawn)
  unfolding set_draws
  Steps-set_draws drawn = record { at = λ w. p.on_draw w drawn }

module _ {ℓ κ} ⦃L : Labels⦄ ⦃S : Serde⦄ {p : Policy} {A : Type ℓ} {B : Type κ} where
  continue_keeps :
      (f : A → Action B)
      → ((a : A) → Steps p (f a))
      → (r : Outcome A) (w : World) → p.R w (continue r f w).1
  continue_keeps f kf (ok a) w = (kf a).at w
  continue_keeps f kf (err e) w = p.refl_at w
  continue_keeps f kf panic w = p.refl_at w
  continue_keeps f kf diverges w = p.refl_at w

  pub Steps-bind :
      (m : Action A) (f : A → Action B) → Steps p m → ((a : A) → Steps p (f a)) → Steps p (m >>= f)
  unfolding ◌>>=◌
  Steps-bind m f km kf = record {
    at = λ w. let (r, w') = m w in p.trans_at w w' _ (km.at w) (continue_keeps f kf r w');
  }

pub ruleset step_rules = (
  Steps-pure, Steps-throw, Steps-panics, Steps-forever, Steps-unwrap, Steps-return_if, Steps-ok_or,
  Steps-gets, Steps-with_rounds, Steps-if, Steps-ensure, Steps-taint, Steps-raise_label,
  Steps-set_draws, Steps-backing_get, Steps-backing_put, Steps-backing_add, Steps-backing_cas,
  Steps-bind,
)
