-- ===== src/Sched/Removal.antt =====
-- The removal of a node, `remove` of snapfaas/src/sched/resource_manager.rs.
use faasten.Base.{
  ℕ, ◌≡◌, false, Option, none, some, List, [], ◌∷◌, arith, ◌==◌, number_eq, All, Bool-cases,
  Option-cases, inl, inr, subst, eq_of_test,
}
use faasten.Base.Dict
use faasten.Base.Dict.{Dict, get-remove}
use faasten.Fs.Types.{Function}
use faasten.Sched.Manager.{Node, Worker, NodeInfo, Manager, pop, function_eq, has_some}
use faasten.Sched.Leaving.{
  move_last, add_front, swap_out, what_is_left, without, remove_cached, remove,
}
use faasten.Sched.Lists.{All-retain, pop-All}
use faasten.Sched.Consistent.{Known, Cached, Idle, Consistent}

-- The node is not in the list.
abbrev pub Absent : Node → List (Node × ℕ) → Type 0
Absent n = All (λ x. (x.0 == n) ≡ false)

-- Each node stands in the list once.
abbrev pub Distinct : List (Node × ℕ) → Type 0
Distinct [] = Unit
Distinct (x ∷ v) = Absent x.0 v × Distinct v

All-both :
    {A : Type 0} (P Q R : A → Type 0) (xs : List A)
    → ((a : A) → P a → Q a → R a)
    → All P xs
    → All Q xs
    → All R xs
All-both P Q R [] f h k = tt
All-both P Q R (x ∷ xs) f h k = (f x h.0 k.0, All-both P Q R xs f h.1 k.1)

move_last-All : (P : Node × ℕ → Type 0) (v : List (Node × ℕ)) → All P v → All P (move_last v)
move_last-All P v h = elim (Option-cases (pop v)) [
  | inl e ↦ rw e tt
  | inr (q, e) ↦ rw e (pop-All P v q.0 q.1 h e)
]

abbrev pub Within : (Node × ℕ → Type 0) → Option (List (Node × ℕ)) → Type 0
Within P none = Unit
Within P (some v) = All P v

add_front-Within :
    (P : Node × ℕ → Type 0) (x : Node × ℕ) (o : Option (List (Node × ℕ)))
    → P x
    → Within P o
    → Within P (add_front x o)
add_front-Within P x none p h = tt
add_front-Within P x (some v) p h = (p, h)

pub swap_out-Within :
    (P : Node × ℕ → Type 0) (n : Node) (v : List (Node × ℕ)) → All P v → Within P (swap_out n v)
unfolding swap_out
swap_out-Within P n [] h = tt
swap_out-Within P n ((k, c) ∷ v) h = elim (Bool-cases (k == n)) [
  | inl e ↦ rw (swap_out, e) (move_last-All P v h.1)
  | inr e ↦
      rw (swap_out, e) (add_front-Within P (k, c) (swap_out n v) h.0 (swap_out-Within P n v h.1))
]

-- After the search the node is gone: it was not there, or it is not in what is left.
abbrev Gone : Node → List (Node × ℕ) → Option (List (Node × ℕ)) → Type 0
Gone n v none = Absent n v
Gone n v (some v') = Absent n v'

add_front-Gone :
    (n : Node) (x : Node × ℕ) (v : List (Node × ℕ)) (o : Option (List (Node × ℕ)))
    → (x.0 == n) ≡ false
    → Gone n v o
    → Gone n (x ∷ v) (add_front x o)
add_front-Gone n x v none e h = (e, h)
add_front-Gone n x v (some v') e h = (e, h)

swap_out-Gone : (n : Node) (v : List (Node × ℕ)) → Distinct v → Gone n v (swap_out n v)
unfolding swap_out
swap_out-Gone n [] d = tt
swap_out-Gone n ((k, c) ∷ v) d = elim (Bool-cases (k == n)) [
  | inl e ↦ rw (swap_out, e) (move_last-All _ v (subst (λ j. Absent j v) (eq_of_test k n e) d.0))
  | inr e ↦ rw (swap_out, e) (add_front-Gone n (k, c) v (swap_out n v) e (swap_out-Gone n v d.1))
]

left-Absent :
    (n : Node) (v : List (Node × ℕ)) (o : Option (List (Node × ℕ)))
    → Gone n v o
    → Absent n (what_is_left v o)
left-Absent n v none h = h
left-Absent n v (some v') h = All-retain _ has_some v' h

left-All :
    (P : Node × ℕ → Type 0) (v : List (Node × ℕ)) (o : Option (List (Node × ℕ)))
    → All P v
    → Within P o
    → All P (what_is_left v o)
left-All P v none h k = h
left-All P v (some v') h k = All-retain P has_some v' k

Known-remove :
    (info : Dict Node NodeInfo) (n k : Node)
    → Known info k
    → (k == n) ≡ false
    → Known (Dict.remove n info) k
unfolding Dict.contains_key
Known-remove info n k h e = ground (arith, h, e, get-remove n k info)

remove_cached-Cached :
    (info : Dict Node NodeInfo) (n : Node) (cached : Dict Function (List (Node × ℕ)))
    → All (λ e. All (Cached info) e.1) cached
    → All (λ e. Distinct e.1) cached
    → All (λ e. All (Cached (Dict.remove n info)) e.1) (remove_cached n cached)
remove_cached-Cached info n [] h d = tt
remove_cached-Cached info n ((f, v) ∷ rest) h d = (
  All-both (Cached info) (λ x. (x.0 == n) ≡ false) _ (without n v)
      (λ x k a. (Known-remove info n x.0 k.0 a, k.1))
      (left-All _ v (swap_out n v) h.0 (swap_out-Within _ n v h.0))
      (left-Absent n v (swap_out n v) (swap_out-Gone n v d.0)),
  remove_cached-Cached info n rest h.1 d.1,
)

remove-Idle :
    (info : Dict Node NodeInfo) (n : Node) (idle : Dict Node (List Worker))
    → All (Idle info) idle
    → All (Idle (Dict.remove n info)) (Dict.remove n idle)
unfolding Dict.remove
remove-Idle info n [] h = tt
remove-Idle info n ((k, ws) ∷ rest) h = elim (Bool-cases (k == n)) [
  | inl e ↦ rw e (remove-Idle info n rest h.1)
  | inr e ↦ rw e ((Known-remove info n k h.0.0 e, h.0.1), remove-Idle info n rest h.1)
]

-- Where no list of cached VMs has a node twice, the removal of a node keeps what is known
-- consistent: nothing that is left names the node.
pub remove-Consistent :
    (n : Node) (m : Manager)
    → All (λ e. Distinct e.1) m.cached
    → Consistent m
    → Consistent (remove n m).1
unfolding remove
remove-Consistent n m d c = record {
  cached = remove_cached-Cached m.info n m.cached c.cached d;
  idle = remove-Idle m.info n m.idle c.idle;
}
