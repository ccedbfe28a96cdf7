-- ===== src/Sched/Manager.antt =====
-- `ResourceManager` of snapfaas/src/sched/resource_manager.rs: which nodes there are, which VMs they
-- have cached, and which of their workers are idle.
--
-- An address is a number, a connection is a number, and the messages that end a worker are the list
-- of those that got one. An operation gives no result where the code panics.
use faasten.Base.{
  ℕ, zero, suc, ◌-◌, ◌^◌, Bool, true, false, not, Option, none, some, List, [], ◌∷◌, ◌++◌,
  if◌then◌else◌, ◌==◌, Equality, number_eq, retain, ltb, ◌&&◌, ◌≡◌, refl, arith, subst, test_refl,
  eq_of_test, name_eq,
}
use faasten.Base.Dict
use faasten.Base.Dict.{Dict}
use faasten.Fs.Types.{Function}

-- `Node(IpAddr)`.
abbrev pub Node : Type 0
Node = ℕ

pub record SocketAddr : Type 0 where
  pub ip : ℕ
  pub port : ℕ

pub record Worker : Type 0 where
  pub addr : SocketAddr
  pub conn : ℕ

pub record NodeInfo : Type 0 where
  pub node : Node
  pub total_mem : ℕ
  pub free_mem : ℕ
  pub dirty : Bool

-- `Vec::pop`: the last element, and the rest.
unfoldable pub pop {ℓ} : {A : Type ℓ} → List A → Option (A × List A)
pop [] = none
pop (x ∷ xs) = elim (pop xs) [ none ↦ some (x, []) | some (y, ys) ↦ some (y, x ∷ ys) ]

abbrev pub same_function : Function → Function → Bool
same_function f g =
    (f.memory == g.memory)
    && ((f.app_image == g.app_image)
        && ((f.runtime_image == g.runtime_image) && (f.kernel == g.kernel)))

pub same_function_refl : (f : Function) → same_function f f ≡ true
same_function_refl f =
    rw (test_refl f.memory, test_refl f.app_image, test_refl f.runtime_image, test_refl f.kernel)
      refl

pub same_function_eq : (f g : Function) → same_function f g ≡ true → f ≡ g
same_function_eq f g h = ground (
  arith,
  h,
  eq_of_test f.memory g.memory,
  eq_of_test f.app_image g.app_image,
  eq_of_test f.runtime_image g.runtime_image,
  eq_of_test f.kernel g.kernel,
)

instance abbrev pub function_eq : Equality Function
function_eq = record {
  test = same_function;
  test_iff = λ f g.
      (same_function_eq f g, λ e. subst (λ k. same_function f k ≡ true) e (same_function_refl f));
}

pub record ResourceInfo : Type 0 where
  pub stats : List (Function × ℕ)
  pub total_mem : ℕ
  pub free_mem : ℕ

pub record Manager : Type 0 where
  pub info : Dict Node NodeInfo
  -- Where VMs of a function are cached, and how many.
  pub cached : Dict Function (List (Node × ℕ))
  pub idle : Dict Node (List Worker)
  -- The callers that wait for a task, by its number.
  pub wait_list : Dict ℕ ℕ

abbrev pub new_manager : Manager
new_manager = record { info = []; cached = []; idle = []; wait_list = [] }

abbrev pub new_node : Node → NodeInfo
new_node node = record { node = node; total_mem = 0; free_mem = 0; dirty = false }

-- `-= 1` on a `usize`.
abbrev pub minus_one : ℕ → ℕ
minus_one zero = 2 ^ 64 - 1
minus_one (suc n) = n

abbrev pub is_nil : List Worker → Bool
is_nil [] = true
is_nil (_ ∷ _) = false

-- Whether the node is new.
unfoldable pub try_add_node : Node → Manager → Bool × Manager
try_add_node node m =
    if Dict.contains_key node m.info
    then (false, m)
    else (true, record m { info = Dict.insert node (new_node node) m.info })

abbrev pub or_nil : Option (List Worker) → List Worker
or_nil none = []
or_nil (some ws) = ws

unfoldable pub add_idle : SocketAddr → ℕ → Manager → Manager
unfolding try_add_node
add_idle addr conn m =
    let m' = (try_add_node addr.ip m).1 in
    record m' {
      idle =
          Dict.insert addr.ip
            (or_nil (Dict.get addr.ip m'.idle) ++ (record { addr = addr; conn = conn } ∷ []))
            m'.idle;
    }

abbrev pub keep_first :
    Node × ℕ → Option (Option (Node × List (Node × ℕ))) → Option (Option (Node × List (Node × ℕ)))
keep_first e none = none
keep_first e (some none) = some none
keep_first e (some (some (n, v))) = some (some (n, e ∷ v))

-- The first node that is not dirty, with one VM fewer there: none where a node is not known.
unfoldable pub take_clean :
    Dict Node NodeInfo → List (Node × ℕ) → Option (Option (Node × List (Node × ℕ)))
take_clean info [] = some none
take_clean info ((n, c) ∷ rest) =
    let later = take_clean info rest in
    elim (Dict.get n info) [
      | none ↦ none
      | some i ↦
          if i.dirty then keep_first (n, c) later else some (some (n, (n, minus_one c) ∷ rest))
    ]

abbrev pub has_some : Node × ℕ → Bool
has_some e = ltb 0 e.1

-- The workers that are left: a node without any goes.
abbrev pub drop_empty : Dict Node (List Worker) → Dict Node (List Worker)
drop_empty = retain (λ e. not (is_nil e.1))

-- A worker of the node.
unfoldable pub take_from : Node → Manager → Option Worker × Manager
unfolding pop
take_from n m = elim (pop (or_nil (Dict.get n m.idle))) [
  | none ↦ (none, record m { idle = drop_empty m.idle })
  | some (w, ws) ↦ (some w, record m { idle = drop_empty (Dict.insert n ws m.idle) })
]

-- The last worker of the first node, whose node is marked dirty. No result where that node is not
-- known.
unfoldable pub mark_dirty : Node → Manager → Option Manager
mark_dirty n m = elim (Dict.get n m.info) [
  | none ↦ none
  | some i ↦ some (record m { info = Dict.insert n (record i { dirty = true }) m.info })
]

abbrev pub finish_any : Worker → Option Manager → Option (Option Worker × Manager)
finish_any w none = none
finish_any w (some m) = some (some w, record m { idle = drop_empty m.idle })

-- The first value of the map `idle` is asked for a worker.
unfoldable pub take_first : Dict Node (List Worker) → Manager → Option (Option Worker × Manager)
unfolding pop mark_dirty
take_first [] m = some (none, record m { idle = drop_empty m.idle })
take_first ((n, ws) ∷ rest) m = elim (pop ws) [
  | none ↦ some (none, record m { idle = drop_empty m.idle })
  | some (w, ws') ↦ finish_any w (mark_dirty w.addr.ip (record m { idle = (n, ws') ∷ rest }))
]

unfoldable pub take_any : Manager → Option (Option Worker × Manager)
take_any m = take_first m.idle m

-- What follows the search among the nodes that have a VM of the function.
unfoldable pub take_cached :
    Function
    → Option (Option (Node × List (Node × ℕ)))
    → List (Node × ℕ)
    → Manager
    → Option (Option Worker × Manager)
take_cached f none v m = none
take_cached f (some none) v m =
    take_any (record m { cached = Dict.insert f (retain has_some v) m.cached })
take_cached f (some (some (n, v'))) v m =
    some (take_from n (record m { cached = Dict.insert f (retain has_some v') m.cached }))

unfoldable pub find_idle : Function → Manager → Option (Option Worker × Manager)
find_idle f m = elim (Dict.get f m.cached) [
  | none ↦ take_any m
  | some v ↦ take_cached f (take_clean m.info v) v m
]

-- The number of a node's VMs is set, or the node is added at the end.
abbrev pub set_count : Node → ℕ → List (Node × ℕ) → List (Node × ℕ)
set_count n c [] = (n, c) ∷ []
set_count n c ((k, b) ∷ rest) =
    let later = set_count n c rest in if k == n then (n, c) ∷ rest else (k, b) ∷ later

abbrev pub update_list : Node → ℕ → Option (List (Node × ℕ)) → Option (List (Node × ℕ))
update_list n c (some v) = some (retain has_some (set_count n c v))
update_list n zero none = none
update_list n (suc c) none = some ((n, suc c) ∷ [])

abbrev pub put_list :
    Function
    → Option (List (Node × ℕ))
    → Dict Function (List (Node × ℕ))
    → Dict Function (List (Node × ℕ))
put_list f none cached = cached
put_list f (some v) cached = Dict.insert f v cached

unfoldable pub update_cached :
    Node → List (Function × ℕ) → Dict Function (List (Node × ℕ)) → Dict Function (List (Node × ℕ))
update_cached n [] cached = cached
update_cached n ((f, c) ∷ stats) cached =
    update_cached n stats (put_list f (update_list n c (Dict.get f cached)) cached)

-- The node is known after `try_add_node`, so that its `unwrap` does not fail.
unfoldable pub update : Node → ResourceInfo → Manager → Manager
unfolding try_add_node update_cached
update n info m =
    let m' = (try_add_node n m).1 in
    record m' {
      info =
          Dict.insert n
            (record {
              node = n;
              total_mem = info.total_mem;
              free_mem = info.free_mem;
              dirty = false;
            })
            m'.info;
      cached = update_cached n info.stats m'.cached;
    }
