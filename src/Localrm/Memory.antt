-- ===== src/Localrm/Memory.antt =====
-- The accounting of memory and the eviction of VMs: snapfaas/src/resource_manager.rs.
use faasten.Base.{
  ℕ, zero, suc, ◌+◌, ◌-◌, ◌≤◌, ◌<◌, ◌≡◌, refl, subst, true, false, none, some, List, [], ◌∷◌, arith,
  length, ltb, leb, Bool-cases, Option-cases, inl, inr,
}
use faasten.Base.Dict.{Dict}
use faasten.Labels.{Labels}
use faasten.Fs.Types.{Function}
use faasten.Sched.Manager.{pop}
use faasten.Localrm.Manager.{
  Vm, Local, drop_last, sweep, evict_loop, dummy_evict, try_allocate_memory,
}

module _ ⦃L : Labels⦄ where
  -- The memory of the VMs of a list, and of all that are cached; and how many these are.
  abbrev pub mem_of : List Vm → ℕ
  mem_of [] = 0
  mem_of (vm ∷ vms) = vm.function.memory + mem_of vms

  abbrev pub cached_mem : Dict Function (List Vm) → ℕ
  cached_mem [] = 0
  cached_mem ((f, vms) ∷ rest) = mem_of vms + cached_mem rest

  abbrev pub cached_vms : Dict Function (List Vm) → ℕ
  cached_vms [] = 0
  cached_vms ((f, vms) ∷ rest) = length vms + cached_vms rest

  pop-none : (vms : List Vm) → pop vms ≡ none → length vms ≡ 0
  unfolding pop
  pop-none [] e = refl
  pop-none (vm ∷ vms) e = elim (Option-cases (pop vms)) [
    | inl n ↦ let e' : some (vm, []) ≡ none = rw n at e in cc
    | inr (q, n) ↦ let e' : some (q.0, vm ∷ q.1) ≡ none = rw n at e in cc
  ]

  pop-some : (vms : List Vm) (q : Vm × List Vm) → pop vms ≡ some q → 0 < length vms
  unfolding pop
  pop-some [] q e = cc
  pop-some (vm ∷ vms) q e = omega arith

  pop_lem :
      (vms : List Vm)
      → ((drop_last (pop vms)).1 + mem_of (drop_last (pop vms)).0 ≡ mem_of vms)
        × (length (drop_last (pop vms)).0 ≡ length vms - 1)
  unfolding pop
  pop_lem [] = (omega arith, omega arith)
  pop_lem (vm ∷ vms) = elim (Option-cases (pop vms)) [
    | inl e ↦
        let ih : ((drop_last none).1 + mem_of (drop_last none).0 ≡ mem_of vms)
            × (length (drop_last none).0 ≡ length vms - 1) =
          rw e at (pop_lem vms) in
        rw e (omega (arith, ih.0), omega (arith, pop-none vms e))
    | inr (q, e) ↦
        let ih : (q.0.function.memory + mem_of q.1 ≡ mem_of vms) × (length q.1 ≡ length vms - 1) =
          rw e at (pop_lem vms) in
        rw e (omega (arith, ih.0), omega (arith, ih.1, pop-some vms q e))
  ]

  sweep_mem :
      (cache : Dict Function (List Vm))
      → (sweep cache).1 + cached_mem (sweep cache).0 ≡ cached_mem cache
  unfolding sweep
  sweep_mem [] = omega arith
  sweep_mem ((f, vms) ∷ rest) = omega (arith, sweep_mem rest, (pop_lem vms).0)

  sweep_vms : (cache : Dict Function (List Vm)) → cached_vms (sweep cache).0 ≤ cached_vms cache - 1
  unfolding sweep
  sweep_vms [] = omega arith
  sweep_vms ((f, vms) ∷ rest) = omega (arith, sweep_vms rest, (pop_lem vms).1)

  none_cached : (cache : Dict Function (List Vm)) → cached_vms cache ≡ 0 → cached_mem cache ≡ 0
  none_cached [] h = omega arith
  none_cached ((f, []) ∷ rest) h = omega (arith, none_cached rest (omega (arith, h)))
  none_cached ((f, vm ∷ vms) ∷ rest) h = absurd (omega (arith, h))

  -- Memory went from the cache to what is free, and what was asked for is freed.
  record Moved (mem freed : ℕ) (m m' : Local) : Type 0 where
    kept : m'.free_mem + cached_mem m'.cache ≡ m.free_mem + cached_mem m.cache
    enough : m.free_mem + mem ≤ m'.free_mem + freed
    total : m'.total_mem ≡ m.total_mem

  stays_lem : (mem freed : ℕ) (m : Local) → ltb freed mem ≡ false → Moved mem freed m m
  stays_lem mem freed m e = record { kept = refl; enough = ground (arith, e); total = refl }

  -- Eviction moves memory from the cache to what is free, and at its end enough was freed.
  evict_loop_lem :
      (n mem freed : ℕ) (m m' : Local) → evict_loop n mem freed m ≡ some m' → Moved mem freed m m'
  unfolding evict_loop
  evict_loop_lem zero mem freed m m' h = elim (Bool-cases (ltb freed mem)) [
    | inl e ↦ let h' : none ≡ some m' = rw e at h in cc
    | inr e ↦
        let h' : some m ≡ some m' = rw e at h in
        let q : m ≡ m' = cc in subst (Moved mem freed m) q (stays_lem mem freed m e)
  ]
  evict_loop_lem (suc n) mem freed m m' h = elim (Bool-cases (ltb freed mem)) [
    | inl e ↦
        let more : ℕ = (sweep m.cache).1 in
        let m1 : Local = record m { cache = (sweep m.cache).0; free_mem = m.free_mem + more } in
        let h' : evict_loop n mem (freed + more) m1 ≡ some m' = rw e at h in
        let ih : Moved mem (freed + more) m1 m' = evict_loop_lem n mem (freed + more) m1 m' h' in
        record {
          kept = omega (arith, ih.kept, sweep_mem m.cache);
          enough = omega (arith, ih.enough);
          total = ih.total;
        }
    | inr e ↦
        let h' : some m ≡ some m' = rw e at h in
        let q : m ≡ m' = cc in subst (Moved mem freed m) q (stays_lem mem freed m e)
  ]

  -- With what is cached the loop goes on until enough is freed: one pass for each VM is enough.
  evict_loop_ends :
      (n mem freed : ℕ) (m : Local)
      → mem ≤ freed + cached_mem m.cache
      → cached_vms m.cache ≤ n
      → (m' : Local) × (evict_loop n mem freed m ≡ some m')
  unfolding evict_loop
  evict_loop_ends zero mem freed m h k =
      let z : cached_mem m.cache ≡ 0 = none_cached m.cache (omega (arith, k)) in
      let e : ltb freed mem ≡ false = ground (arith, h, z) in rw (evict_loop, e) (m, refl)
  evict_loop_ends (suc n) mem freed m h k = elim (Bool-cases (ltb freed mem)) [
    | inl e ↦
        rw (evict_loop, e)
          (evict_loop_ends n mem (freed + (sweep m.cache).1)
            (record m { cache = (sweep m.cache).0; free_mem = m.free_mem + (sweep m.cache).1 })
            (omega (arith, h, sweep_mem m.cache)) (omega (arith, k, sweep_vms m.cache)))
    | inr e ↦ rw (evict_loop, e) (m, refl)
  ]

  -- Where the cached VMs hold less than is asked for, no number of passes is enough.
  evict_loop-stuck :
      (n mem freed : ℕ) (m : Local)
      → freed + cached_mem m.cache < mem
      → evict_loop n mem freed m ≡ none
  unfolding evict_loop
  evict_loop-stuck zero mem freed m h = ground (arith, h)
  evict_loop-stuck (suc n) mem freed m h = ground (
    arith,
    h,
    evict_loop-stuck n mem (freed + (sweep m.cache).1)
        (record m { cache = (sweep m.cache).0; free_mem = m.free_mem + (sweep m.cache).1 })
        (omega (arith, h, sweep_mem m.cache)),
  )

  -- Where the memory of the cached VMs is less than what is asked for, eviction never ends, although
  -- the node has that much memory in total: no number of passes is enough.
  pub dummy_evict-stuck :
      (rounds mem : ℕ) (m : Local)
      → cached_mem m.cache < mem
      → mem ≤ m.total_mem
      → dummy_evict rounds mem m ≡ none
  unfolding dummy_evict
  dummy_evict-stuck rounds mem m h t =
      let e : ltb m.total_mem mem ≡ false = ground (arith, t) in
      rw (e, evict_loop-stuck rounds mem 0 m (omega (arith, h))) refl

  -- Where the cached VMs have as much memory as is asked for, it is reserved, within one pass for each
  -- VM that is cached. The memory that is reserved comes from what was free and what
  -- was cached, none is lost, and nothing is taken that was not free.
  pub try_allocate_memory_lem :
      (rounds mem : ℕ) (m : Local)
      → mem ≤ m.total_mem
      → mem ≤ cached_mem m.cache
      → cached_vms m.cache ≤ rounds
      → (m' : Local) × ((try_allocate_memory rounds mem m ≡ some (true, m'))
          × (m'.free_mem + cached_mem m'.cache + mem ≡ m.free_mem + cached_mem m.cache))
  unfolding try_allocate_memory dummy_evict
  try_allocate_memory_lem rounds mem m t c k = elim (Bool-cases (leb mem m.free_mem)) [
    | inl e ↦ rw e (_, (refl, ground (arith, e)))
    | inr e ↦
        let f : ltb m.total_mem mem ≡ false = ground (arith, t) in
        let (m1, q) = evict_loop_ends rounds mem 0 m (omega (arith, c)) k in
        let l : Moved mem 0 m m1 = evict_loop_lem rounds mem 0 m m1 q in
        rw (e, f, q) (_, (refl, omega (arith, l.kept, l.enough)))
  ]
