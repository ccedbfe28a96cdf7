-- ===== src/Sched/Once.antt =====
-- Each node stands once in the list of a function: snapfaas/src/sched/resource_manager.rs.
use faasten.Base.{
  ℕ, ◌≡◌, false, Option, none, some, List, [], ◌∷◌, arith, ◌==◌, number_eq, retain, All, Bool-cases,
  Option-cases, inl, inr, subst, eq_of_test,
}
use faasten.Base.Dict
use faasten.Base.Dict.{Dict}
use faasten.Sched.Manager.{
  Node, NodeInfo, Manager, pop, function_eq, has_some, take_clean, keep_first, set_count,
}
use faasten.Sched.Leaving.{move_last}
use faasten.Sched.Lists.{All-retain, pop-All}
use faasten.Sched.Removal.{Absent, Distinct}

abbrev pub Once : Manager → Type 0
Once m = All (λ e. Distinct e.1) m.cached

pub retain-Distinct : (v : List (Node × ℕ)) → Distinct v → Distinct (retain has_some v)
retain-Distinct [] d = tt
retain-Distinct (x ∷ v) d = elim (Bool-cases (has_some x)) [
  | inl e ↦ rw e (All-retain _ has_some v d.0, retain-Distinct v d.1)
  | inr e ↦ rw e (retain-Distinct v d.1)
]

-- A predicate on the list that the search for a clean node leaves.
abbrev pub Leaves : (List (Node × ℕ) → Type 0) → Option (Option (Node × List (Node × ℕ))) → Type 0
Leaves P none = Unit
Leaves P (some none) = Unit
Leaves P (some (some (n, v))) = P v

keep_first-Leaves :
    (P Q : List (Node × ℕ) → Type 0) (x : Node × ℕ) (o : Option (Option (Node × List (Node × ℕ))))
    → ((v : List (Node × ℕ)) → P v → Q (x ∷ v))
    → Leaves P o
    → Leaves Q (keep_first x o)
keep_first-Leaves P Q x none f h = tt
keep_first-Leaves P Q x (some none) f h = tt
keep_first-Leaves P Q x (some (some (n, v))) f h = f v h

take_clean-Leaves :
    (info : Dict Node NodeInfo) (k : Node) (v : List (Node × ℕ))
    → Absent k v
    → Leaves (Absent k) (take_clean info v)
unfolding take_clean
take_clean-Leaves info k [] h = tt
take_clean-Leaves info k ((n, c) ∷ v) h = elim (Option-cases (Dict.get n info)) [
  | inl e ↦ rw (take_clean, e) tt
  | inr (i, e) ↦ elim (Bool-cases i.dirty) [
    | inl d ↦
        rw (take_clean, e, d)
          (keep_first-Leaves (Absent k) (Absent k) (n, c) (take_clean info v) (λ v' a. (h.0, a))
            (take_clean-Leaves info k v h.1))
    | inr d ↦ rw (take_clean, e, d) h
  ]
]

both-Leaves :
    (P Q : List (Node × ℕ) → Type 0) (o : Option (Option (Node × List (Node × ℕ))))
    → Leaves P o
    → Leaves Q o
    → Leaves (λ v. P v × Q v) o
both-Leaves P Q none h k = tt
both-Leaves P Q (some none) h k = tt
both-Leaves P Q (some (some (n, v))) h k = (h, k)

pub take_clean-Distinct :
    (info : Dict Node NodeInfo) (v : List (Node × ℕ))
    → Distinct v
    → Leaves Distinct (take_clean info v)
unfolding take_clean
take_clean-Distinct info [] d = tt
take_clean-Distinct info ((n, c) ∷ v) d = elim (Option-cases (Dict.get n info)) [
  | inl e ↦ rw (take_clean, e) tt
  | inr (i, e) ↦ elim (Bool-cases i.dirty) [
    | inl t ↦
        rw (take_clean, e, t)
          (keep_first-Leaves (λ v'. Absent n v' × Distinct v') Distinct (n, c) (take_clean info v)
            (λ v' a. a)
            (both-Leaves (Absent n) Distinct (take_clean info v) (take_clean-Leaves info n v d.0)
              (take_clean-Distinct info v d.1)))
    | inr t ↦ rw (take_clean, e, t) d
  ]
]

set_count-Absent :
    (k n : Node) (c : ℕ) (v : List (Node × ℕ))
    → (n == k) ≡ false
    → Absent k v
    → Absent k (set_count n c v)
set_count-Absent k n c [] e h = (e, tt)
set_count-Absent k n c ((j, b) ∷ v) e h = elim (Bool-cases (j == n)) [
  | inl t ↦ rw t (e, h.1)
  | inr t ↦ rw t (h.0, set_count-Absent k n c v e h.1)
]

pub test_sym : (j n : ℕ) → (j == n) ≡ false → (n == j) ≡ false
test_sym j n h = ground (arith, h)

pub set_count-Distinct :
    (n : Node) (c : ℕ) (v : List (Node × ℕ)) → Distinct v → Distinct (set_count n c v)
set_count-Distinct n c [] d = (tt, tt)
set_count-Distinct n c ((j, b) ∷ v) d = elim (Bool-cases (j == n)) [
  | inl t ↦ rw t (subst (λ i. Absent i v) (eq_of_test j n t) d.0, d.1)
  | inr t ↦ rw t (set_count-Absent j n c v (test_sym j n t) d.0, set_count-Distinct n c v d.1)
]

pop-Distinct :
    (v : List (Node × ℕ)) (q : (Node × ℕ) × List (Node × ℕ))
    → Distinct v
    → pop v ≡ some q
    → Absent q.0.0 q.1 × Distinct q.1
unfolding pop
pop-Distinct [] q d e = cc
pop-Distinct (x ∷ v) q d e = elim (Option-cases (pop v)) [
  | inl n ↦
      let e' : some (x, []) ≡ some q = rw n at e in
      let p : (x, []) ≡ q = cc in subst (λ r. Absent r.0.0 r.1 × Distinct r.1) p (tt, tt)
  | inr (r, n) ↦
      let e' : some (r.0, x ∷ r.1) ≡ some q = rw n at e in
      let p : (r.0, x ∷ r.1) ≡ q = cc in
      let ih : Absent r.0.0 r.1 × Distinct r.1 = pop-Distinct v r d.1 n in
      let a : ((r.0.0 == x.0) ≡ false) × Absent x.0 r.1 = pop-All _ v r.0 r.1 d.0 n in
      subst (λ t. Absent t.0.0 t.1 × Distinct t.1) p ((test_sym r.0.0 x.0 a.0, ih.0), (a.1, ih.1))
]

pub move_last-Distinct : (v : List (Node × ℕ)) → Distinct v → Distinct (move_last v)
move_last-Distinct v d = elim (Option-cases (pop v)) [
  | inl e ↦ rw e tt
  | inr (q, e) ↦ rw e (pop-Distinct v q d e)
]
