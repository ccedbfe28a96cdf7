-- ===== src/Sched/Search.antt =====
-- The search for an idle worker, `find_idle` of snapfaas/src/sched/resource_manager.rs.
use faasten.Base.{
  ℕ, ◌≡◌, refl, true, Option, none, some, List, [], ◌∷◌, arith, number_eq, retain, All, Bool-cases,
  Option-cases, inl, inr, subst, sym,
}
use faasten.Base.Dict
use faasten.Base.Dict.{Dict, get-insert, get-remove}
use faasten.Fs.Types.{Function}
use faasten.Sched.Manager.{
  Node, Worker, NodeInfo, Manager, pop, function_eq, take_clean, keep_first, has_some, drop_empty,
  take_from, mark_dirty, finish_any, take_first, take_any, take_cached, find_idle, or_nil,
}
use faasten.Sched.Lists.{All-weaken, All-retain, pop-All, get-All, insert-All}
use faasten.Sched.Consistent.{
  Known, Cached, Idle, Consistent, Known-insert, grow-Consistent, idle_at,
}

-- The nodes of a list are known.
abbrev pub Listed : Dict Node NodeInfo → Node × ℕ → Type 0
Listed info c = Known info c.0

retain-Cached :
    (info : Dict Node NodeInfo) (v : List (Node × ℕ))
    → All (Listed info) v
    → All (Cached info) (retain has_some v)
retain-Cached info [] h = tt
retain-Cached info (x ∷ v) h = elim (Bool-cases (has_some x)) [
  | inl e ↦ rw e ((h.0, ground (arith, e)), retain-Cached info v h.1)
  | inr e ↦ rw e (retain-Cached info v h.1)
]

-- What the search for a clean node gives: it does not panic, and what it names is known.
abbrev Sound : Dict Node NodeInfo → Option (Option (Node × List (Node × ℕ))) → Type 0
Sound info none = ⊥
Sound info (some none) = Unit
Sound info (some (some (n, v))) = Known info n × All (Listed info) v

keep_first-Sound :
    (info : Dict Node NodeInfo) (x : Node × ℕ) (o : Option (Option (Node × List (Node × ℕ))))
    → Known info x.0
    → Sound info o
    → Sound info (keep_first x o)
keep_first-Sound info x none k h = h
keep_first-Sound info x (some none) k h = tt
keep_first-Sound info x (some (some (n, v))) k h = (h.0, (k, h.1))

take_clean-Sound :
    (info : Dict Node NodeInfo) (v : List (Node × ℕ))
    → All (Listed info) v
    → Sound info (take_clean info v)
unfolding take_clean Dict.contains_key
take_clean-Sound info [] h = tt
take_clean-Sound info ((n, c) ∷ v) h = elim (Option-cases (Dict.get n info)) [
  | inl e ↦ absurd (ground (arith, e, h.0))
  | inr (i, e) ↦ elim (Bool-cases i.dirty) [
    | inl d ↦
        rw (take_clean, e, d)
          (keep_first-Sound info (n, c) (take_clean info v) h.0 (take_clean-Sound info v h.1))
    | inr d ↦ rw (take_clean, e, d) (h.0, (h.0, h.1))
  ]
]

-- The search ends without a panic, and what is known stays consistent.
abbrev pub Found : Option (Option Worker × Manager) → Type 0
Found none = ⊥
Found (some (w, m)) = Consistent m

drop-Consistent :
    (m : Manager) (idle : Dict Node (List Worker))
    → All (Idle m.info) idle
    → Consistent m
    → Consistent (record m { idle = drop_empty idle })
drop-Consistent m idle h c = record { cached = c.cached; idle = All-retain (Idle m.info) _ idle h }

take_from-Consistent :
    (n : Node) (m : Manager) → Known m.info n → Consistent m → Consistent (take_from n m).1
unfolding take_from
take_from-Consistent n m k c = elim (Option-cases (pop (or_nil (Dict.get n m.idle)))) [
  | inl e ↦ rw (take_from, e) (drop-Consistent m m.idle c.idle c)
  | inr (q, e) ↦
      rw (take_from, e)
        (drop-Consistent m (Dict.insert n q.1 m.idle)
          (insert-All (Idle m.info) m.idle n q.1 c.idle
            (k, (pop-All _ (or_nil (Dict.get n m.idle)) q.0 q.1 (idle_at m n c) e).1))
          c)
]

finish-Found :
    (w : Worker) (n : Node) (m : Manager)
    → n ≡ w.addr.ip
    → Known m.info n
    → Consistent m
    → Found (finish_any w (mark_dirty w.addr.ip m))
unfolding mark_dirty Dict.contains_key
finish-Found w n m en k c = elim (Option-cases (Dict.get w.addr.ip m.info)) [
  | inl e ↦ absurd (ground (arith, e, en, k))
  | inr (i, e) ↦
      rw (Found, mark_dirty, e)
        (let g : Consistent
              (record m { info = Dict.insert w.addr.ip (record i { dirty = true }) m.info }) =
            grow-Consistent m _ (λ j. Known-insert m.info w.addr.ip j _) c in
          drop-Consistent _ m.idle g.idle g)
]

take_first-Found :
    (idle : Dict Node (List Worker)) (m : Manager)
    → m.idle ≡ idle
    → Consistent m
    → Found (take_first idle m)
unfolding take_first
take_first-Found [] m e c = drop-Consistent m m.idle c.idle c
take_first-Found ((n, ws) ∷ rest) m e c =
    let h : All (Idle m.info) ((n, ws) ∷ rest) = subst (All (Idle m.info)) e c.idle in
    elim (Option-cases (pop ws)) [
      | inl o ↦ rw (Found, take_first, o) (drop-Consistent m m.idle c.idle c)
      | inr (q, o) ↦
          rw (Found, take_first, o)
            (let p : (q.0.addr.ip ≡ n) × All (λ w. w.addr.ip ≡ n) q.1 =
                pop-All _ ws q.0 q.1 h.0.1 o in
              finish-Found q.0 n (record m { idle = (n, q.1) ∷ rest }) (sym p.0) h.0.0
                (record { cached = c.cached; idle = ((h.0.0, p.1), h.1) }))
    ]

pub listed :
    (info : Dict Node NodeInfo) (v : List (Node × ℕ)) → All (Cached info) v → All (Listed info) v
listed info v = All-weaken _ _ v (λ x h. h.0)

pub with_list-Consistent :
    (f : Function) (v : List (Node × ℕ)) (m : Manager)
    → All (Listed m.info) v
    → Consistent m
    → Consistent (record m { cached = Dict.insert f (retain has_some v) m.cached })
with_list-Consistent f v m h c = record {
  cached =
      insert-All (λ e. All (Cached m.info) e.1) m.cached f (retain has_some v) c.cached
        (retain-Cached m.info v h);
  idle = c.idle;
}

take_cached-Found :
    (f : Function) (o : Option (Option (Node × List (Node × ℕ)))) (v : List (Node × ℕ))
    (m : Manager)
    → Sound m.info o
    → All (Listed m.info) v
    → Consistent m
    → Found (take_cached f o v m)
unfolding take_cached take_any
take_cached-Found f none v m h k c = h
take_cached-Found f (some none) v m h k c =
    take_first-Found m.idle (record m { cached = Dict.insert f (retain has_some v) m.cached }) refl
      (with_list-Consistent f v m k c)
take_cached-Found f (some (some (n, v'))) v m h k c =
    take_from-Consistent n (record m { cached = Dict.insert f (retain has_some v') m.cached }) h.0
      (with_list-Consistent f v' m h.1 c)

-- On what is consistent, the search for an idle worker never panics, whatever the function and
-- whichever nodes are dirty, and leaves what is consistent.
pub find_idle-Found : (f : Function) (m : Manager) → Consistent m → Found (find_idle f m)
unfolding find_idle take_any
find_idle-Found f m c = elim (Option-cases (Dict.get f m.cached)) [
  | inl e ↦ rw (Found, find_idle, e) (take_first-Found m.idle m refl c)
  | inr (v, e) ↦
      rw (Found, find_idle, e)
        (let k : All (Listed m.info) v =
            listed m.info v (get-All (λ x. All (Cached m.info) x.1) m.cached f v c.cached e) in
          take_cached-Found f (take_clean m.info v) v m (take_clean-Sound m.info v k) k c)
]
