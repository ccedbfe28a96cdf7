-- ===== src/Sched/Consistent.antt =====
-- What the scheduler knows of nodes, VMs and workers is consistent, and an idle worker keeps it so:
-- snapfaas/src/sched/resource_manager.rs.
use faasten.Base.{
  ℕ, ◌<◌, ◌≡◌, refl, true, List, arith, number_eq, All, All-append, Bool-cases, Option-cases, inl,
  inr, test_refl,
}
use faasten.Base.Dict
use faasten.Base.Dict.{Dict, get-insert, get-remove}
use faasten.Sched.Manager.{
  Node, SocketAddr, Worker, NodeInfo, Manager, function_eq, try_add_node, add_idle, or_nil,
  new_node,
}
use faasten.Sched.Lists.{All-weaken, get-All, insert-All}

-- The node is known.
abbrev pub Known : Dict Node NodeInfo → Node → Type 0
Known info n = Dict.contains_key n info ≡ true

-- An entry of the list of a function: a known node with a VM of it.
abbrev pub Cached : Dict Node NodeInfo → Node × ℕ → Type 0
Cached info c = Known info c.0 × (0 < c.1)

abbrev pub Idle : Dict Node NodeInfo → Node × List Worker → Type 0
Idle info i = Known info i.0 × All (λ w. w.addr.ip ≡ i.0) i.1

-- Every node that has a cached VM or an idle worker is known, every count is positive, and idle
-- workers stand under the node of their address.
pub record Consistent (m : Manager) : Type 0 where
  pub cached : All (λ e. All (Cached m.info) e.1) m.cached
  pub idle : All (Idle m.info) m.idle

pub Known-insert :
    (info : Dict Node NodeInfo) (k n : Node) (i : NodeInfo)
    → Known info n
    → Known (Dict.insert k i info) n
unfolding Dict.contains_key
Known-insert info k n i h = ground (arith, h, get-insert k n i info)

pub Known-insert_self :
    (info : Dict Node NodeInfo) (n : Node) (i : NodeInfo) → Known (Dict.insert n i info) n
unfolding Dict.contains_key
Known-insert_self info n i = ground (arith, get-insert n n i info, test_refl n)

-- More nodes may become known.
pub grow-Consistent :
    (m : Manager) (info : Dict Node NodeInfo)
    → ((n : Node) → Known m.info n → Known info n)
    → Consistent m
    → Consistent (record m { info = info })
grow-Consistent m info f c = record {
  cached = All-weaken _ _ m.cached (λ e h. All-weaken _ _ e.1 (λ x k. (f x.0 k.0, k.1)) h) c.cached;
  idle = All-weaken _ _ m.idle (λ e h. (f e.0 h.0, h.1)) c.idle;
}

pub try_add_node-Consistent :
    (n : Node) (m : Manager)
    → Consistent m
    → Consistent (try_add_node n m).1 × Known (try_add_node n m).1.info n
unfolding try_add_node
try_add_node-Consistent n m c = elim (Bool-cases (Dict.contains_key n m.info)) [
  | inl k ↦ rw k (c, k)
  | inr k ↦ rw k (
    grow-Consistent m (Dict.insert n (new_node n) m.info)
        (λ j. Known-insert m.info n j (new_node n)) c,
    Known-insert_self m.info n (new_node n),
  )
]

pub idle_at :
    (m : Manager) (n : Node) → Consistent m → All (λ w. w.addr.ip ≡ n) (or_nil (Dict.get n m.idle))
idle_at m n c = elim (Option-cases (Dict.get n m.idle)) [
  | inl e ↦ rw e tt
  | inr (ws, e) ↦ rw e (get-All (Idle m.info) m.idle n ws c.idle e).1
]

pub add_idle-Consistent :
    (addr : SocketAddr) (conn : ℕ) (m : Manager) → Consistent m → Consistent (add_idle addr conn m)
unfolding add_idle
add_idle-Consistent addr conn m c =
    let m' : Manager = (try_add_node addr.ip m).1 in
    let (c', k) = try_add_node-Consistent addr.ip m c in
    record {
      cached = c'.cached;
      idle = insert-All (Idle m'.info) m'.idle addr.ip _ c'.idle (
        k,
        All-append _ (or_nil (Dict.get addr.ip m'.idle)) _ (idle_at m' addr.ip c') (refl, tt),
      );
    }
