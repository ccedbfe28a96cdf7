-- ===== src/Sched/Calls.antt =====
-- Any sequence of calls of the resource manager: snapfaas/src/sched/resource_manager.rs.
use faasten.Base.{
  ℕ, zero, suc, ◌≡◌, refl, false, Option, none, some, List, [], ◌∷◌, ◌==◌, number_eq, retain, All,
  Bool-cases, Option-cases, inl, inr,
}
use faasten.Base.Dict
use faasten.Base.Dict.{Dict}
use faasten.Fs.Types.{Function}
use faasten.Sched.Manager.{
  Node, SocketAddr, Worker, Manager, new_manager, pop, function_eq, has_some, set_count,
  update_list, put_list, update_cached, ResourceInfo, update, add_idle, try_add_node, find_idle,
  take_clean, take_cached, take_any, take_first, take_from, mark_dirty, finish_any, or_nil,
}
use faasten.Sched.Leaving.{add_front, swap_out, what_is_left, remove_cached, remove}
use faasten.Sched.Lists.{get-All, insert-All}
use faasten.Sched.Consistent.{Consistent, add_idle-Consistent}
use faasten.Sched.Search.{Found, find_idle-Found}
use faasten.Sched.Reports.{update-Consistent}
use faasten.Sched.Removal.{Distinct, Within, swap_out-Within, remove-Consistent}
use faasten.Sched.Once.{
  Once, Leaves, retain-Distinct, take_clean-Distinct, set_count-Distinct, move_last-Distinct,
}

-- The manager that a search leaves, if it leaves one.
abbrev pub Then : (Manager → Type 0) → Option (Option Worker × Manager) → Type 0
Then P none = Unit
Then P (some (w, m)) = P m

mark_dirty-Once :
    (w : Worker) (n : Node) (m : Manager) → Once m → Then Once (finish_any w (mark_dirty n m))
unfolding mark_dirty
mark_dirty-Once w n m h = elim (Option-cases (Dict.get n m.info)) [
  | inl e ↦ rw (mark_dirty, e) tt
  | inr (i, e) ↦ rw (mark_dirty, e) h
]

take_first-Once :
    (idle : Dict Node (List Worker)) (m : Manager) → Once m → Then Once (take_first idle m)
unfolding take_first
take_first-Once [] m h = h
take_first-Once ((n, ws) ∷ rest) m h = elim (Option-cases (pop ws)) [
  | inl o ↦ rw (take_first, o) h
  | inr (q, o) ↦
      rw (take_first, o) (mark_dirty-Once q.0 q.0.addr.ip (record m { idle = (n, q.1) ∷ rest }) h)
]

take_from-Once : (n : Node) (m : Manager) → Once m → Once (take_from n m).1
unfolding take_from
take_from-Once n m h = elim (Option-cases (pop (or_nil (Dict.get n m.idle)))) [
  | inl e ↦ rw (take_from, e) h
  | inr (q, e) ↦ rw (take_from, e) h
]

take_cached-Once :
    (f : Function) (o : Option (Option (Node × List (Node × ℕ)))) (v : List (Node × ℕ))
    (m : Manager)
    → Leaves Distinct o
    → Distinct v
    → Once m
    → Then Once (take_cached f o v m)
unfolding take_cached take_any
take_cached-Once f none v m h d k = tt
take_cached-Once f (some none) v m h d k =
    take_first-Once m.idle (record m { cached = Dict.insert f (retain has_some v) m.cached })
      (insert-All (λ e. Distinct e.1) m.cached f _ k (retain-Distinct v d))
take_cached-Once f (some (some (n, v'))) v m h d k =
    take_from-Once n (record m { cached = Dict.insert f (retain has_some v') m.cached })
      (insert-All (λ e. Distinct e.1) m.cached f _ k (retain-Distinct v' h))

pub find_idle-Once : (f : Function) (m : Manager) → Once m → Then Once (find_idle f m)
unfolding find_idle take_any
find_idle-Once f m h = elim (Option-cases (Dict.get f m.cached)) [
  | inl e ↦ rw (find_idle, e) (take_first-Once m.idle m h)
  | inr (v, e) ↦
      rw (find_idle, e)
        (let d : Distinct v = get-All (λ x. Distinct x.1) m.cached f v h e in
          take_cached-Once f (take_clean m.info v) v m (take_clean-Distinct m.info v d) d h)
]

put_list-Once :
    (cached : Dict Function (List (Node × ℕ))) (n : Node) (f : Function) (c : ℕ)
    (o : Option (List (Node × ℕ)))
    → Dict.get f cached ≡ o
    → All (λ e. Distinct e.1) cached
    → All (λ e. Distinct e.1) (put_list f (update_list n c o) cached)
put_list-Once cached n f c (some v) e h =
    insert-All (λ x. Distinct x.1) cached f _ h
      (retain-Distinct (set_count n c v)
        (set_count-Distinct n c v (get-All (λ x. Distinct x.1) cached f v h e)))
put_list-Once cached n f zero none e h = h
put_list-Once cached n f (suc c) none e h =
    insert-All (λ x. Distinct x.1) cached f ((n, suc c) ∷ []) h (tt, tt)

update_cached-Once :
    (n : Node) (stats : List (Function × ℕ)) (cached : Dict Function (List (Node × ℕ)))
    → All (λ e. Distinct e.1) cached
    → All (λ e. Distinct e.1) (update_cached n stats cached)
unfolding update_cached
update_cached-Once n [] cached h = h
update_cached-Once n ((f, c) ∷ stats) cached h =
    update_cached-Once n stats (put_list f (update_list n c (Dict.get f cached)) cached)
      (put_list-Once cached n f c (Dict.get f cached) refl h)

try_add_node-cached : (n : Node) (m : Manager) → (try_add_node n m).1.cached ≡ m.cached
unfolding try_add_node
try_add_node-cached n m = elim (Bool-cases (Dict.contains_key n m.info)) [
  | inl e ↦ rw e refl
  | inr e ↦ rw e refl
]

update-Once : (n : Node) (report : ResourceInfo) (m : Manager) → Once m → Once (update n report m)
unfolding update
update-Once n report m h =
    update_cached-Once n report.stats (try_add_node n m).1.cached (rw (try_add_node-cached n m) h)

add_idle-Once : (addr : SocketAddr) (conn : ℕ) (m : Manager) → Once m → Once (add_idle addr conn m)
unfolding add_idle
add_idle-Once addr conn m h = rw (try_add_node-cached addr.ip m) h

-- What a removal leaves has each node once.
abbrev OnLeft : Option (List (Node × ℕ)) → Type 0
OnLeft none = Unit
OnLeft (some v) = Distinct v

add_front-Distinct :
    (x : Node × ℕ) (o : Option (List (Node × ℕ)))
    → Within (λ y. (y.0 == x.0) ≡ false) o
    → OnLeft o
    → OnLeft (add_front x o)
add_front-Distinct x none a d = tt
add_front-Distinct x (some v) a d = (a, d)

swap_out-Distinct : (n : Node) (v : List (Node × ℕ)) → Distinct v → OnLeft (swap_out n v)
unfolding swap_out
swap_out-Distinct n [] d = tt
swap_out-Distinct n ((k, c) ∷ v) d = elim (Bool-cases (k == n)) [
  | inl e ↦ rw (swap_out, e) (move_last-Distinct v d.1)
  | inr e ↦
      rw (swap_out, e)
        (add_front-Distinct (k, c) (swap_out n v) (swap_out-Within _ n v d.0)
          (swap_out-Distinct n v d.1))
]

left-Distinct :
    (v : List (Node × ℕ)) (o : Option (List (Node × ℕ)))
    → Distinct v
    → OnLeft o
    → Distinct (what_is_left v o)
left-Distinct v none d h = d
left-Distinct v (some v') d h = retain-Distinct v' h

remove_cached-Once :
    (n : Node) (cached : Dict Function (List (Node × ℕ)))
    → All (λ e. Distinct e.1) cached
    → All (λ e. Distinct e.1) (remove_cached n cached)
remove_cached-Once n [] h = tt
remove_cached-Once n ((f, v) ∷ rest) h =
    (left-Distinct v (swap_out n v) h.0 (swap_out-Distinct n v h.0), remove_cached-Once n rest h.1)

remove-Once : (n : Node) (m : Manager) → Once m → Once (remove n m).1
unfolding remove
remove-Once n m h = remove_cached-Once n m.cached h

-- The calls of the scheduler.
pub data ManagerCall : Type 0 where
  worker_idle : SocketAddr → ℕ → ManagerCall
  worker_wanted : Function → ManagerCall
  node_report : Node → ResourceInfo → ManagerCall
  node_gone : Node → ManagerCall

abbrev pub after_search : Option (Option Worker × Manager) → Option Manager
after_search none = none
after_search (some (w, m)) = some m

-- No result where a call panics.
unfoldable pub perform : ManagerCall → Manager → Option Manager
perform (ManagerCall.worker_idle addr conn) m = some (add_idle addr conn m)
perform (ManagerCall.worker_wanted f) m = after_search (find_idle f m)
perform (ManagerCall.node_report n report) m = some (update n report m)
perform (ManagerCall.node_gone n) m = some (remove n m).1

unfoldable pub go_on : List ManagerCall → Option Manager → Option Manager
unfolding perform
go_on cs none = none
go_on [] (some m) = some m
go_on (c ∷ cs) (some m) = go_on cs (perform c m)

abbrev pub Sane : Option Manager → Type 0
Sane none = ⊥
Sane (some m) = Consistent m × Once m

pub after_search-Sane :
    (o : Option (Option Worker × Manager)) → Found o → Then Once o → Sane (after_search o)
after_search-Sane none f h = f
after_search-Sane (some (w, m)) f h = (f, h)

pub perform-Sane : (c : ManagerCall) (m : Manager) → Consistent m → Once m → Sane (perform c m)
unfolding perform
perform-Sane (ManagerCall.worker_idle addr conn) m c h =
    (add_idle-Consistent addr conn m c, add_idle-Once addr conn m h)
perform-Sane (ManagerCall.worker_wanted f) m c h =
    after_search-Sane (find_idle f m) (find_idle-Found f m c) (find_idle-Once f m h)
perform-Sane (ManagerCall.node_report n report) m c h =
    (update-Consistent n report m c, update-Once n report m h)
perform-Sane (ManagerCall.node_gone n) m c h = (remove-Consistent n m h c, remove-Once n m h)

-- From consistent knowledge in which each node stands once in each list, no sequence of calls
-- panics, and the knowledge at its end is such again.
go_on-Sane : (cs : List ManagerCall) (o : Option Manager) → Sane o → Sane (go_on cs o)
unfolding go_on
go_on-Sane cs none h = h
go_on-Sane [] (some m) h = h
go_on-Sane (c ∷ cs) (some m) h = go_on-Sane cs (perform c m) (perform-Sane c m h.0 h.1)

-- From the start on, no sequence of calls of the resource manager panics, whatever is asked for and
-- whatever the nodes report: its `unwrap`s never fail. At the end every node that has a cached VM
-- or an idle worker is known, every count is positive, and no list names a node twice.
pub started-Sane : (cs : List ManagerCall) → Sane (go_on cs (some new_manager))
started-Sane cs = go_on-Sane cs (some new_manager) (record { cached = tt; idle = tt }, tt)
