-- ===== src/Fs/Object/Fresh.antt =====
-- The numbers of new objects.
use faasten.Base.{
  ℕ, ◌≡◌, Option, none, some, List, [], ◌∷◌, arith, is_some, if◌then◌else◌, ◌==◌, number_eq,
  Bool-cases, inl, inr,
}
use faasten.Labels.{Labels}
use faasten.Fs.Types.{Kind, Stored}
use faasten.Fs.World.{
  Serde, ok, World, Store, Bytes, ◌>>=◌, settle, write_at, write_all, backing_add, backing_put,
}
use faasten.Fs.Object.Core.{set, set_new_id_loop, set_new_id, new_ref}
use faasten.Fs.Object.Directory.{alone}

module _ ⦃L : Labels⦄ ⦃S : Serde⦄ where
  -- The first number among the draws under which nothing is stored, and the draws after it.
  unfoldable pub first_free : Store → List ℕ → Option (ℕ × List ℕ)
  first_free st [] = none
  first_free st (u ∷ us) =
      let rest = first_free st us in if is_some (st u) then rest else some (u, us)

  -- The world with a value stored under the number, and what is left to draw.
  abbrev pub stored_at : World → ℕ → Bytes → List ℕ → World
  stored_at w u v us = record w { store = write_at u (some v) w.store; others = []; draws = us }

  set_new_id_loop-free :
      (us : List ℕ) (w : World) (u : ℕ) (rest : List ℕ)
      → first_free w.store us ≡ some (u, rest)
      → set_new_id_loop us (alone w) ≡ (ok u, stored_at w u S.empty rest)
  unfolding set_new_id_loop first_free ◌>>=◌ backing_add settle write_all
  set_new_id_loop-free [] w u rest h = cc
  set_new_id_loop-free (x ∷ us) w u rest h = elim (Bool-cases (is_some (w.store x))) [
    | inl used ↦ rw used (set_new_id_loop-free us (record w { draws = us }) u rest (rw used at h))
    | inr free ↦ rw free (ground (arith, h, free))
  ]

  first_free-none :
      (st : Store) (us : List ℕ) (u : ℕ) (rest : List ℕ)
      → first_free st us ≡ some (u, rest)
      → st u ≡ none
  unfolding first_free
  first_free-none st [] u rest h = cc
  first_free-none st (x ∷ us) u rest h = ground (arith, first_free-none st us u rest)

  write_twice :
      (u : ℕ) (x y : Option Bytes) (st : Store) (j : ℕ)
      → write_at u x (write_at u y st) j ≡ (if u == j then x else st j)
  unfolding write_at
  write_twice u x y st j = ground arith

  -- A new object gets the first number drawn under which nothing is stored; its value is stored
  -- under that number, and nothing else changes.
  pub set_new_id-free :
      (k : Kind) (v : Stored k) (w : World) (u : ℕ) (rest : List ℕ)
      → first_free w.store w.draws ≡ some (u, rest)
      → (w.store u ≡ none)
        × ((set_new_id k v (alone w)).0 ≡ ok (new_ref u))
        × ((j : ℕ)
            → (set_new_id k v (alone w)).1.store j
              ≡ (if u == j then some (S.to_vec k v) else w.store j))
  unfolding set_new_id ◌>>=◌ set backing_put settle write_all
  set_new_id-free k v w u rest h = (
    first_free-none w.store w.draws u rest h,
    rw (set_new_id_loop-free w.draws w u rest h),
    λ j.
        rw (set_new_id_loop-free w.draws w u rest h)
          (write_twice u (some (S.to_vec k v)) (some S.empty) w.store j),
  )
