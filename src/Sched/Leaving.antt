-- ===== src/Sched/Leaving.antt =====
-- The nodes that leave: `remove` and `remove_all` of snapfaas/src/sched/resource_manager.rs.
use faasten.Base.{
  ℕ, Option, none, some, List, [], ◌∷◌, ◌++◌, if◌then◌else◌, ◌==◌, number_eq, retain, name_eq,
}
use faasten.Base.Dict
use faasten.Base.Dict.{Dict}
use faasten.Fs.Types.{Function}
use faasten.Sched.Manager.{Node, NodeInfo, Worker, Manager, pop, function_eq, has_some, or_nil}

abbrev pub last_first : List (Node × ℕ) → Option ((Node × ℕ) × List (Node × ℕ)) → List (Node × ℕ)
last_first v none = []
last_first v (some (l, init)) = l ∷ init

abbrev pub move_last : List (Node × ℕ) → List (Node × ℕ)
move_last v = last_first v (pop v)

abbrev pub add_front : Node × ℕ → Option (List (Node × ℕ)) → Option (List (Node × ℕ))
add_front x none = none
add_front x (some v) = some (x ∷ v)

-- `swap_remove` at the position of the node: the last entry takes the place of the one that goes.
unfoldable pub swap_out : Node → List (Node × ℕ) → Option (List (Node × ℕ))
swap_out n [] = none
swap_out n ((k, c) ∷ rest) =
    let later = swap_out n rest in if k == n then some (move_last rest) else add_front (k, c) later

abbrev pub what_is_left : List (Node × ℕ) → Option (List (Node × ℕ)) → List (Node × ℕ)
what_is_left v none = v
what_is_left v (some v') = retain has_some v'

abbrev pub without : Node → List (Node × ℕ) → List (Node × ℕ)
without n v = what_is_left v (swap_out n v)

abbrev pub remove_cached : Node → Dict Function (List (Node × ℕ)) → Dict Function (List (Node × ℕ))
remove_cached n [] = []
remove_cached n ((f, v) ∷ rest) = (f, without n v) ∷ remove_cached n rest

abbrev pub rev : List Worker → List Worker
rev [] = []
rev (w ∷ ws) = rev ws ++ (w ∷ [])

-- The workers that are told to end, the last one first, and what is left.
unfoldable pub remove : Node → Manager → List Worker × Manager
unfolding swap_out
remove n m = (
  rev (or_nil (Dict.get n m.idle)),
  record m {
    cached = remove_cached n m.cached;
    info = Dict.remove n m.info;
    idle = Dict.remove n m.idle;
  },
)

unfoldable pub remove_nodes : List (Node × NodeInfo) → Manager → Manager
unfolding remove
remove_nodes [] m = m
remove_nodes ((n, i) ∷ rest) m = remove_nodes rest (remove n m).1

unfoldable pub remove_all : Manager → Manager
remove_all m = remove_nodes m.info m
