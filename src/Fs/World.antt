-- ===== src/Fs/World.antt =====
-- What an operation of the file system reads and changes: the backing store (the trait
-- `BackingStore` of snapfaas/src/fs/mod.rs, as lmdb.rs implements it), the two thread-local
-- labels, the numbers that `rand::random` will draw, and what other threads write.
--
-- `others` is the schedule: before each access of this thread the next batch of writes of other
-- threads takes effect. An operation ends with a value, with an error, with a panic, or never:
-- `diverges` says that a loop went on although nothing was left that could end it.
pub mod Steps
use faasten.Base.{
  ℕ, ◌≡◌, refl, Bool, true, false, Option, none, some, List, [], ◌∷◌, arith, if◌then◌else◌,
  Equality, ◌==◌, is_some, number_eq, suc, length,
}
use faasten.Labels.{Labels, Component, Buckle, lub}
use faasten.Fs.Errors.{FsError}
use faasten.Fs.Types.{Kind, Stored, ObjectRef}

-- serde_json: the encoding of each type that is stored, and its decoding. Decoding takes back what
-- was encoded, and an empty value is no JSON.
pub record Serde ⦃L : Labels⦄ : Type 1 where
  pub Bytes : Type 0
  pub empty : Bytes
  pub bytes_eq : Equality Bytes
  pub to_vec : (k : Kind) → Stored k → Bytes
  pub from_slice : (k : Kind) → Bytes → Option (Stored k)
  pub from_slice-to_vec : (k : Kind) (v : Stored k) → from_slice k (to_vec k v) ≡ some v
  pub from_slice-empty : (k : Kind) → from_slice k empty ≡ none

pub data Outcome {ℓ} (A : Type ℓ) : Type ℓ where
  ok : A → Outcome A
  err : FsError → Outcome A
  panic diverges : Outcome A

-- The result of a compare-and-swap: on failure, the value that was found.
pub data Swap {ℓ} (A : Type ℓ) : Type ℓ where
  swapped : Swap A
  conflict : Option A → Swap A

module _ ⦃L : Labels⦄ ⦃S : Serde⦄ where
  abbrev pub Bytes : Type 0
  Bytes = S.Bytes

  abbrev pub Store : Type 0
  Store = ℕ → Option S.Bytes

  pub record World : Type 0 where
    pub store : Store
    pub others : List (List (ℕ × Option Bytes))
    pub draws : List ℕ
    pub label : Buckle
    pub privilege : Component

  abbrev pub Action {ℓ} : Type ℓ → Type ℓ
  Action A = World → Outcome A × World

  abbrev pub continue {ℓ κ} : {A : Type ℓ} {B : Type κ} → Outcome A → (A → Action B) → Action B
  continue (ok a) f w = f a w
  continue (err e) f w = (err e, w)
  continue panic f w = (panic, w)
  continue diverges f w = (diverges, w)

  unfoldable pub pure {ℓ} : {A : Type ℓ} → A → Action A
  pure a w = (ok a, w)

  unfoldable pub throw {ℓ} : {A : Type ℓ} → FsError → Action A
  throw e w = (err e, w)

  unfoldable pub panics {ℓ} : {A : Type ℓ} → Action A
  panics w = (panic, w)

  unfoldable pub forever {ℓ} : {A : Type ℓ} → Action A
  forever w = (diverges, w)

  -- `Option::unwrap`.
  unfoldable pub unwrap {ℓ} : {A : Type ℓ} → Option A → Action A
  unwrap none w = (panic, w)
  unwrap (some a) w = (ok a, w)

  -- `if let Some(a) = o { return a }` before the rest.
  unfoldable pub return_if {ℓ} : {A : Type ℓ} → Option A → Action A → Action A
  return_if none rest w = rest w
  return_if (some a) rest w = (ok a, w)

  -- `Option::ok_or(e)?`.
  unfoldable pub ok_or {ℓ} : {A : Type ℓ} → FsError → Option A → Action A
  ok_or e none w = (err e, w)
  ok_or e (some a) w = (ok a, w)

  -- What a function of the thread-local state returns.
  unfoldable pub gets {ℓ} : {A : Type ℓ} → (World → A) → Action A
  gets f w = (ok (f w), w)

  -- `if … { Ok(()) } else { Err(e) }` and `?`.
  unfoldable pub ensure : (World → Bool) → FsError → Action (Unit {0})
  ensure test e w = (if test w then ok tt else err e, w)

  -- The current label is raised by the label of what is read.
  unfoldable pub taint : Buckle → Action (Unit {0})
  taint l w = (ok tt, record w { label = lub l w.label })

  unfoldable pub raise_label : Buckle → Action (Unit {0})
  raise_label l w = (ok tt, record w { label = lub w.label l })

  unfoldable pub set_draws : List ℕ → Action (Unit {0})
  set_draws drawn w = (ok tt, record w { draws = drawn })

  -- One more round than there are batches left: a round of a compare-and-swap loop fails only when
  -- another thread has written.
  unfoldable pub with_rounds {ℓ} : {A : Type ℓ} → (ℕ → Action A) → Action A
  with_rounds f w = f (suc (length w.others)) w

  infixl 10 ◌>>=◌ ◌>>◌
  -- Opening this opens the actions above.
  unfoldable pub ◌>>=◌ {ℓ κ} : {A : Type ℓ} {B : Type κ} → Action A → (A → Action B) → Action B
  unfolding pure throw panics forever unwrap return_if ok_or gets ensure taint raise_label set_draws
      with_rounds
  ◌>>=◌ m f w = let (r, w') = m w in continue r f w'

  abbrev pub ◌>>◌ {ℓ κ} : {A : Type ℓ} {B : Type κ} → Action A → Action B → Action B
  m >> n = m >>= λ _. n

  unfoldable pub write_at : ℕ → Option Bytes → Store → Store
  write_at k v st j = if k == j then v else st j

  unfoldable pub write_all : List (ℕ × Option Bytes) → Store → Store
  unfolding write_at
  write_all [] st = st
  write_all ((k, v) ∷ ws) st = write_all ws (write_at k v st)

  abbrev pub first_batch : List (List (ℕ × Option Bytes)) → List (ℕ × Option Bytes)
  first_batch [] = []
  first_batch (batch ∷ rest) = batch

  abbrev pub later_batches : List (List (ℕ × Option Bytes)) → List (List (ℕ × Option Bytes))
  later_batches [] = []
  later_batches (batch ∷ rest) = rest

  -- The writes of other threads that come before the next access.
  unfoldable pub settle : World → World
  unfolding write_all
  settle w = record w {
    store = write_all (first_batch w.others) w.store;
    others = later_batches w.others;
  }

  unfoldable pub backing_get : ℕ → Action (Option Bytes)
  unfolding settle
  backing_get k w = let w' = settle w in (ok (w'.store k), w')

  unfoldable pub backing_put : ℕ → Bytes → Action (Unit {0})
  unfolding settle write_at
  backing_put k v w =
      let w' = settle w in (ok tt, record w' { store = write_at k (some v) w'.store })

  -- Adds a value under a key that has none.
  unfoldable pub backing_add : ℕ → Bytes → Action Bool
  unfolding settle write_at
  backing_add k v w =
      let w' = settle w in
      if is_some (w'.store k)
      then (ok false, w')
      else (ok true, record w' { store = write_at k (some v) w'.store })

  abbrev pub same_bytes : Option Bytes → Option Bytes → Bool
  same_bytes none none = true
  same_bytes (some a) (some b) = S.bytes_eq.test a b
  same_bytes _ _ = false

  unfoldable pub backing_cas : ℕ → Option Bytes → Bytes → Action (Swap Bytes)
  unfolding settle write_at
  backing_cas k expected v w =
      let w' = settle w in
      if same_bytes expected (w'.store k)
      then (ok swapped, record w' { store = write_at k (some v) w'.store })
      else (ok (conflict (w'.store k)), w')

  unfoldable pub backing_del : ℕ → Action (Unit {0})
  unfolding settle write_at
  backing_del k w = let w' = settle w in (ok tt, record w' { store = write_at k none w'.store })
