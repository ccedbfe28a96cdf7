-- ===== src/Sched/Lists.antt =====
-- Predicates on the elements of lists and maps, for the resource manager.
use faasten.Base.{
  ◌≡◌, Bool, some, List, [], ◌∷◌, ◌==◌, Equality, number_eq, retain, All, Bool-cases, Option-cases,
  inl, inr, subst, eq_of_test,
}
use faasten.Base.Dict
use faasten.Base.Dict.{Dict, get-insert, get-remove}
use faasten.Sched.Manager.{pop, function_eq}

module _ {A : Type 0} where
  pub All-weaken : (P Q : A → Type 0) (xs : List A) → ((a : A) → P a → Q a) → All P xs → All Q xs
  All-weaken P Q [] f h = tt
  All-weaken P Q (x ∷ xs) f h = (f x h.0, All-weaken P Q xs f h.1)

  pub All-retain : (P : A → Type 0) (p : A → Bool) (xs : List A) → All P xs → All P (retain p xs)
  All-retain P p [] h = tt
  All-retain P p (x ∷ xs) h = elim (Bool-cases (p x)) [
    | inl e ↦ rw e (h.0, All-retain P p xs h.1)
    | inr e ↦ rw e (All-retain P p xs h.1)
  ]

  -- The last element and the rest.
  pub pop-All :
      (P : A → Type 0) (xs : List A) (y : A) (ys : List A)
      → All P xs
      → pop xs ≡ some (y, ys)
      → P y × All P ys
  unfolding pop
  pop-All P [] y ys h e = cc
  pop-All P (x ∷ xs) y ys h e = elim (Option-cases (pop xs)) [
    | inl n ↦
        let e' : some (x, []) ≡ some (y, ys) = rw n at e in
        let ey : x ≡ y = cc in let es : [] ≡ ys = cc in (subst P ey h.0, subst (All P) es tt)
    | inr (q, n) ↦
        let e' : some (q.0, x ∷ q.1) ≡ some (y, ys) = rw n at e in
        let ih : P q.0 × All P q.1 = pop-All P xs q.0 q.1 h.1 n in
        let ey : q.0 ≡ y = cc in
        let es : x ∷ q.1 ≡ ys = cc in (subst P ey ih.0, subst (All P) es (h.0, ih.1))
  ]

module _ {K V : Type 0} ⦃e : Equality K⦄ (P : K × V → Type 0) where
  pub get-All : (m : Dict K V) (k : K) (v : V) → All P m → Dict.get k m ≡ some v → P (k, v)
  unfolding Dict.get
  get-All [] k v h g = cc
  get-All ((j, w) ∷ m) k v h g = elim (Bool-cases (j == k)) [
    | inl t ↦
        let g' : some w ≡ some v = rw t at g in
        let j' : j ≡ k = eq_of_test j k t in let q : (j, w) ≡ (k, v) = cc in subst P q h.0
    | inr t ↦ get-All m k v h.1 (rw t at g)
  ]

  pub insert-All : (m : Dict K V) (k : K) (v : V) → All P m → P (k, v) → All P (Dict.insert k v m)
  unfolding Dict.insert
  insert-All [] k v h p = (p, tt)
  insert-All ((j, w) ∷ m) k v h p = elim (Bool-cases (j == k)) [
    | inl t ↦ rw t (p, h.1)
    | inr t ↦ rw t (h.0, insert-All m k v h.1 p)
  ]

  pub remove-All : (m : Dict K V) (k : K) → All P m → All P (Dict.remove k m)
  unfolding Dict.remove
  remove-All [] k h = tt
  remove-All ((j, w) ∷ m) k h = elim (Bool-cases (j == k)) [
    | inl t ↦ rw t (remove-All m k h.1)
    | inr t ↦ rw t (h.0, remove-All m k h.1)
  ]
