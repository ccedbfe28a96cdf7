-- ===== src/Fs/Object/Steps.antt =====
-- Every operation on an object keeps to any policy.
use faasten.Base.{ℕ, zero, suc, String, Bool, true, false, Option, none, some, List, [], ◌∷◌}
use faasten.Labels.{Labels, Component, Buckle}
use faasten.Fs.Types.{
  Item, Kind, Payload, Stored, DirectoryRef, FileRef, FacetedRef, GateRef, ServiceRef, BlobRef,
  ObjectRef, Labeled, Directory, File, Blob, DirEntry, FacetedDirectory, Service, Gate, direct,
  redirect,
}
use faasten.Fs.World.{Serde, Swap, swapped, conflict, Action, pure}
use faasten.Fs.World.Steps.{
  Policy, Steps, Steps-bind, Steps-if, Steps-pure, Steps-forever, Steps-set_draws, Steps-return_if,
  Steps-backing_add, step_rules,
}
use faasten.Fs.Object.Core.{
  get, set, set_new_id_loop, set_new_id, cas, unlabel, write, modify, create, get_labeled,
  check_flow,
}
use faasten.Fs.Object.Contents.{
  list, insert_entry, link_loop, link, remove_entry, unlink_loop, unlink, read_file_ref,
  write_file_ref, open_loop, open_facet, list_facets, service_to_invokable, check_delegation,
  service_replace, resolve_loop, gate_to_invokable, gate_replace, read_blob_ref, blob_replace,
}

module _ ⦃L : Labels⦄ ⦃S : Serde⦄ {p : Policy} where
  pub Steps-get : {k : Kind} (r : ObjectRef k) → Steps p (get r)
  unfolding get
  Steps-get r = search step_rules

  pub Steps-set : {k : Kind} (r : ObjectRef k) (v : Stored k) → Steps p (set r v)
  unfolding set
  Steps-set r v = search step_rules

  pub Steps-cas :
      {k : Kind} (r : ObjectRef k) (e : Option (Stored k)) (v : Stored k) → Steps p (cas r e v)
  unfolding cas
  Steps-cas r e v = search step_rules

  pub Steps-unlabel : {T : Type 0} (l : Labeled T) → Steps p (unlabel l)
  unfolding unlabel
  Steps-unlabel l = search step_rules

  pub Steps-write : {T : Type 0} (l : Labeled T) (v : T) → Steps p (write l v)
  unfolding write
  Steps-write l v = search step_rules

  pub Steps-modify : {T R : Type 0} (l : Labeled T) (f : T → R × T) → Steps p (modify l f)
  unfolding modify
  Steps-modify l f = search step_rules

  pub Steps-get_labeled : {i : Item} (r : ObjectRef (Kind.labeled i)) → Steps p (get_labeled r)
  unfolding get_labeled
  Steps-get_labeled r = search step_rules

  Steps-set_new_id_loop : (drawn : List ℕ) → Steps p (set_new_id_loop drawn)
  unfolding set_new_id_loop
  Steps-set_new_id_loop [] = Steps-forever
  Steps-set_new_id_loop (uid ∷ drawn) = Steps-bind _ _ (Steps-set_draws drawn) λ _.
      Steps-bind _ _ (Steps-backing_add uid _)
        λ added. Steps-if added _ _ (Steps-pure uid) (Steps-set_new_id_loop drawn)

  pub Steps-set_new_id : (k : Kind) (v : Stored k) → Steps p (set_new_id k v)
  unfolding set_new_id
  Steps-set_new_id k v = search (step_rules, Steps-set_new_id_loop, Steps-set)

  pub Steps-create : (i : Item) (v : Payload i) (l : Buckle) → Steps p (create i v l)
  unfolding create
  Steps-create i v l = Steps-set_new_id _ _

pub ruleset object_steps = (
  step_rules, Steps-get, Steps-set, Steps-cas, Steps-unlabel, Steps-write, Steps-modify,
  Steps-get_labeled, Steps-set_new_id, Steps-create,
)

module _ ⦃L : Labels⦄ ⦃S : Serde⦄ {p : Policy} where
  pub Steps-list : (r : DirectoryRef) → Steps p (list r)
  unfolding list
  Steps-list r = search object_steps

  Steps-swap :
      (again : Labeled Directory → Action Bool)
      → ((d : Labeled Directory) → Steps p (again d))
      → (res : Swap (Labeled Directory))
      → Steps p (elim res [
        | conflict found ↦ elim found [ some q ↦ again q | none ↦ pure true ]
        | swapped ↦ pure true
      ])
  Steps-swap again h swapped = Steps-pure true
  Steps-swap again h (conflict none) = Steps-pure true
  Steps-swap again h (conflict (some d)) = h d

  Steps-link_loop :
      (n : ℕ) (r : DirectoryRef) (name : String) (e : DirEntry) (d : Labeled Directory)
      → Steps p (link_loop n r name e d)
  unfolding link_loop
  Steps-link_loop zero r name e d = Steps-forever
  Steps-link_loop (suc n) r name e d = Steps-bind _ _ (Steps-modify d (insert_entry name e)) λ t.
      Steps-if t.0 _ _ (Steps-pure false)
        (Steps-bind _ _ (Steps-cas r (some d) t.1) (Steps-swap _ (Steps-link_loop n r name e)))

  pub Steps-link : (r : DirectoryRef) (name : String) (e : DirEntry) → Steps p (link r name e)
  unfolding link
  Steps-link r name e = search (object_steps, Steps-link_loop)

  Steps-unlink_loop :
      (n : ℕ) (r : DirectoryRef) (name : String) (d : Labeled Directory)
      → Steps p (unlink_loop n r name d)
  unfolding unlink_loop
  Steps-unlink_loop zero r name d = Steps-forever
  Steps-unlink_loop (suc n) r name d = Steps-bind _ _ (Steps-modify d (remove_entry name)) λ t.
      Steps-if _ _ _ (Steps-pure false)
        (Steps-bind _ _ (Steps-cas r (some d) t.1) (Steps-swap _ (Steps-unlink_loop n r name)))

  pub Steps-unlink : (r : DirectoryRef) (name : String) → Steps p (unlink r name)
  unfolding unlink
  Steps-unlink r name = search (object_steps, Steps-unlink_loop)

  pub Steps-read_file_ref : (r : FileRef) → Steps p (read_file_ref r)
  unfolding read_file_ref
  Steps-read_file_ref r = search object_steps

  pub Steps-write_file_ref : (r : FileRef) (bytes : File) → Steps p (write_file_ref r bytes)
  unfolding write_file_ref
  Steps-write_file_ref r bytes = search object_steps

  pub Steps-list_facets : (r : FacetedRef) (c : Buckle) → Steps p (list_facets r c)
  unfolding list_facets
  Steps-list_facets r c = search object_steps

  pub Steps-service_to_invokable : (r : ServiceRef) → Steps p (service_to_invokable r)
  unfolding service_to_invokable
  Steps-service_to_invokable r = search object_steps

  pub Steps-check_delegation : (c : Component) → Steps p (check_delegation c)
  unfolding check_delegation
  Steps-check_delegation c = search step_rules

  pub Steps-check_flow : (l : Buckle) → Steps p (check_flow l)
  unfolding check_flow
  Steps-check_flow l = search step_rules

  pub Steps-service_replace : (r : ServiceRef) (s : Service) → Steps p (service_replace r s)
  unfolding service_replace
  Steps-service_replace r s = search (object_steps, Steps-check_delegation)

  Steps-resolve_loop : (n : ℕ) (cur : Gate) (a b c : Component) → Steps p (resolve_loop n cur a b c)
  unfolding resolve_loop
  Steps-resolve_loop zero cur a b c = Steps-forever
  Steps-resolve_loop (suc n) (direct g) a b c = Steps-pure _
  Steps-resolve_loop (suc n) (redirect g) a b c =
      Steps-bind _ _ (Steps-get_labeled g.gate)
        λ l. Steps-bind _ _ (Steps-unlabel l) λ next. Steps-resolve_loop n next _ _ _

  pub Steps-gate_to_invokable : (n : ℕ) (r : GateRef) → Steps p (gate_to_invokable n r)
  unfolding gate_to_invokable
  Steps-gate_to_invokable n r = search (object_steps, Steps-resolve_loop)

  pub Steps-gate_replace : (r : GateRef) (g : Gate) → Steps p (gate_replace r g)
  unfolding gate_replace
  Steps-gate_replace r g = search (object_steps, Steps-check_delegation)

  pub Steps-read_blob_ref : (r : BlobRef) → Steps p (read_blob_ref r)
  unfolding read_blob_ref
  Steps-read_blob_ref r = search object_steps

  pub Steps-blob_replace : (r : BlobRef) (b : Blob) → Steps p (blob_replace r b)
  unfolding blob_replace
  Steps-blob_replace r b = search object_steps

  Steps-open_swap :
      (dir : DirectoryRef) (again : Option FacetedDirectory → Action DirectoryRef)
      → ((d : Option FacetedDirectory) → Steps p (again d))
      → (res : Swap FacetedDirectory)
      → Steps p (elim res [ swapped ↦ pure dir | conflict d ↦ again d ])
  Steps-open_swap dir again h swapped = Steps-pure dir
  Steps-open_swap dir again h (conflict d) = h d

  Steps-open_loop :
      (n : ℕ) (r : FacetedRef) (f : Buckle) (d : Option FacetedDirectory)
      → Steps p (open_loop n r f d)
  unfolding open_loop
  Steps-open_loop zero r f d = Steps-forever
  Steps-open_loop (suc n) r f d = Steps-return_if _ _ (
      Steps-bind _ _ (Steps-set_new_id _ _)
        λ dir. Steps-bind _ _ (Steps-cas r d _) (Steps-open_swap dir _ (Steps-open_loop n r f)))

  pub Steps-open_facet : (r : FacetedRef) (f : Buckle) → Steps p (open_facet r f)
  unfolding open_facet
  Steps-open_facet r f = search (object_steps, Steps-open_loop)
