-- ===== src/Sched/Reports.antt =====
-- The reports of nodes, `update` of snapfaas/src/sched/resource_manager.rs.
use faasten.Base.{
  ℕ, zero, suc, ◌≡◌, refl, false, Option, none, some, List, [], ◌∷◌, arith, ◌==◌, number_eq, All,
  Bool-cases, inl, inr,
}
use faasten.Base.Dict
use faasten.Base.Dict.{Dict, get-insert, get-remove}
use faasten.Fs.Types.{Function}
use faasten.Sched.Manager.{
  Node, NodeInfo, ResourceInfo, Manager, function_eq, try_add_node, set_count, update_list,
  put_list, update_cached, update,
}
use faasten.Sched.Lists.{get-All, insert-All}
use faasten.Sched.Consistent.{
  Known, Cached, Consistent, Known-insert, grow-Consistent, try_add_node-Consistent,
}
use faasten.Sched.Search.{Listed, listed, with_list-Consistent}

set_count-Listed :
    (info : Dict Node NodeInfo) (n : Node) (c : ℕ) (v : List (Node × ℕ))
    → Known info n
    → All (Listed info) v
    → All (Listed info) (set_count n c v)
set_count-Listed info n c [] k h = (k, tt)
set_count-Listed info n c ((j, b) ∷ v) k h = elim (Bool-cases (j == n)) [
  | inl e ↦ rw e (k, h.1)
  | inr e ↦ rw e (h.0, set_count-Listed info n c v k h.1)
]

put_list-Consistent :
    (m : Manager) (n : Node) (f : Function) (c : ℕ) (o : Option (List (Node × ℕ)))
    → Dict.get f m.cached ≡ o
    → Known m.info n
    → Consistent m
    → Consistent (record m { cached = put_list f (update_list n c o) m.cached })
put_list-Consistent m n f c (some v) e k h =
    with_list-Consistent f (set_count n c v) m
      (set_count-Listed m.info n c v k
        (listed m.info v (get-All (λ x. All (Cached m.info) x.1) m.cached f v h.cached e)))
      h
put_list-Consistent m n f zero none e k h = h
put_list-Consistent m n f (suc c) none e k h = record {
  cached =
      insert-All (λ x. All (Cached m.info) x.1) m.cached f ((n, suc c) ∷ []) h.cached
        ((k, omega arith), tt);
  idle = h.idle;
}

update_cached-Consistent :
    (n : Node) (stats : List (Function × ℕ)) (m : Manager)
    → Known m.info n
    → Consistent m
    → Consistent (record m { cached = update_cached n stats m.cached })
unfolding update_cached
update_cached-Consistent n [] m k h = h
update_cached-Consistent n ((f, c) ∷ stats) m k h =
    update_cached-Consistent n stats
      (record m { cached = put_list f (update_list n c (Dict.get f m.cached)) m.cached }) k
      (put_list-Consistent m n f c (Dict.get f m.cached) refl k h)

-- A report of a node keeps all consistent.
pub update-Consistent :
    (n : Node) (report : ResourceInfo) (m : Manager) → Consistent m → Consistent (update n report m)
unfolding update
update-Consistent n report m c =
    let m' : Manager = (try_add_node n m).1 in
    let (c', k) = try_add_node-Consistent n m c in
    let i : NodeInfo = record {
      node = n;
      total_mem = report.total_mem;
      free_mem = report.free_mem;
      dirty = false;
    } in
    grow-Consistent (record m' { cached = update_cached n report.stats m'.cached })
      (Dict.insert n i m'.info) (λ j. Known-insert m'.info n j i)
      (update_cached-Consistent n report.stats m' k c')
