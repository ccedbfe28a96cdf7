-- ===== src/Bootstrap/Acting.antt =====
-- The privilege that snapfaas/src/fs/bootstrap.rs leaves to its thread.
use faasten.Base.{
  ℕ, String, ◌≡◌, refl, Option, none, some, List, [], ◌∷◌, is_some, Bool-cases, inl, inr, name_eq,
  number_eq,
}
use faasten.Labels.{Labels, Buckle, Component, dc_true, dc_false}
use faasten.Fs.Types.{DirEntry, DirectoryRef, File, Function, DirectGate}
use faasten.Fs.World.{
  Serde, Outcome, ok, err, panic, diverges, Action, Bytes, World, backing_add, settle,
}
use faasten.Fs.Object.Steps.{Steps-list, Steps-unlink, Steps-gate_replace}
use faasten.Fs.Ops
use faasten.Fs.Ops.Steps.{Steps-read_path, Steps-create_or_update_blob}
use faasten.Fs.Utils.{set_my_privilege, create_faceted}
use faasten.Fs.Path.{root_path}
use faasten.Syscall.Server.{
  Digest, Server, Call, ◌>>=◌, ◌>>◌, proceed, unwrap, on_fs, try_fs, tried,
}
use faasten.Syscall.Plan.{
  Plan, Follows, Follows-quiet, Follows-on_fs, Follows-try_fs, Follows-pure, Follows-throw,
  Follows-unwrap,
}
use faasten.Syscall.Plan.Handlers.{
  call_rules, Follows-store_create, Follows-store_save, Follows-write_all,
}
use faasten.Syscall.Privilege.{privilege_plan}
use faasten.Bootstrap.{
  Config, faasten_label, link_gate, put_gate, put_fsutil, localfile2blob, install_image,
  install_runtimes, install, prepare_fs,
}

module _ ⦃L : Labels⦄ ⦃S : Serde⦄ ⦃D : Digest⦄ {p : Plan} where
  Follows-link_gate :
      (dir : DirectoryRef) (name : String) (l : Buckle) (g : DirectGate)
      → Follows p 0 0 (link_gate dir name l g)
  unfolding link_gate
  Follows-link_gate dir name l g = search call_rules depth 12

  Follows-put_gate :
      (dir : DirectoryRef) (name : String) (l : Buckle) (g : DirectGate) (o : Option DirEntry)
      → Follows p 0 0 (put_gate dir name l g o)
  unfolding put_gate
  Follows-put_gate dir name l g (some (DirEntry.gate r)) = Follows-on_fs _ (Steps-gate_replace r _)
  Follows-put_gate dir name l g none = Follows-link_gate dir name l g
  Follows-put_gate dir name l g (some _) =
      Follows-quiet _ _ (Follows-on_fs _ (Steps-unlink dir name))
        λ _. Follows-link_gate dir name l g

  Follows-put_fsutil : (l : Buckle) (f : Function) (e : DirEntry) → Follows p 0 0 (put_fsutil l f e)
  unfolding put_fsutil
  Follows-put_fsutil l f (DirEntry.directory dir) =
      Follows-quiet _ _ (Follows-on_fs _ (Steps-list dir)) λ es. Follows-put_gate dir _ l _ _
  Follows-put_fsutil l f _ = Follows-throw 0 0 _

  module _ (local_file : String → Option File) where
    Follows-localfile2blob : (path : String) → Follows p 0 0 (localfile2blob local_file path)
    unfolding localfile2blob
    Follows-localfile2blob path = Follows-quiet _ _ (Follows-unwrap 0 0 _) λ b.
        Follows-quiet _ _ Follows-store_create λ c. Follows-quiet _ _ (Follows-unwrap 0 0 _) λ d.
          Follows-quiet _ _ (Follows-write_all d b) λ w.
            Follows-quiet _ _ (Follows-unwrap 0 0 _) λ e.
              Follows-quiet _ _ (Follows-store_save e)
                λ f. Follows-quiet _ _ (Follows-unwrap 0 0 _) λ g. Follows-pure 0 0 _

    Follows-install_image :
        (l : Buckle) (path name : String) → Follows p 0 0 (install_image local_file l path name)
    unfolding install_image
    Follows-install_image l path name = Follows-quiet _ _ (Follows-localfile2blob path) λ b.
        Follows-quiet _ _ (Follows-on_fs _ (Steps-create_or_update_blob _ name l b))
          λ _. Follows-pure 0 0 _

    module _ (file_name : String → Option String) where
      Follows-install_runtimes :
          (l : Buckle) (rts : List String)
          → Follows p 0 0 (install_runtimes local_file file_name l rts)
      unfolding install_runtimes
      Follows-install_runtimes l [] = Follows-pure 0 0 _
      Follows-install_runtimes l (rt ∷ rest) = Follows-quiet _ _ (Follows-localfile2blob rt) λ b.
          Follows-quiet _ _ (Follows-unwrap 0 0 _) λ n.
            Follows-quiet _ _ (Follows-try_fs _ (Steps-create_or_update_blob _ n l b))
              λ o. Follows-quiet _ _ (Follows-unwrap 0 0 _) λ _. Follows-install_runtimes l rest

      Follows-install : (l : Buckle) (c : Config) → Follows p 0 0 (install local_file file_name l c)
      unfolding install
      Follows-install l c = Follows-quiet _ _ (Follows-install_image l _ _) λ k.
          Follows-quiet _ _ (Follows-install_image l _ _) λ q.
            Follows-quiet _ _ (Follows-install_image l _ _) λ u.
              Follows-quiet _ _ (Follows-on_fs _ (Steps-read_path _))
                λ e. Follows-quiet _ _ (Follows-put_fsutil l _ e) λ _. Follows-install_runtimes l _

module _ ⦃L : Labels⦄ ⦃S : Serde⦄ where
  -- The privilege at the end: none where all went well, that of the principal where an error is
  -- returned.
  abbrev pub LeftWith : {A : Type 0} → Component → Outcome A × Server → Type 0
  LeftWith p (ok a, s) = s.world.privilege ≡ dc_true
  LeftWith p (err e, s) = s.world.privilege ≡ p
  LeftWith p (panic, s) = Unit
  LeftWith p (diverges, s) = Unit

  -- An outcome without an error.
  abbrev NoError : {A : Type 0} → Outcome A → Type 0
  NoError (err e) = ⊥
  NoError _ = Unit

  then_left :
      {A B : Type 0} (p : Component) (r : Outcome A) (s : Server) (f : A → Call B)
      → NoError r
      → ((a : A) → LeftWith p (f a s))
      → LeftWith p (proceed r f s)
  then_left p (ok a) s f n h = h a
  then_left p (err e) s f n h = absurd n
  then_left p panic s f n h = tt
  then_left p diverges s f n h = tt

  bind-LeftWith :
      {A B : Type 0} (p : Component) (m : Call A) (f : A → Call B) (s : Server)
      → NoError (m s).0
      → ((a : A) (t : Server) → LeftWith p (f a t))
      → LeftWith p ((m >>= f) s)
  unfolding ◌>>=◌
  bind-LeftWith p m f s n h = then_left p (m s).0 (m s).1 f n (λ a. h a (m s).1)

  unwrap-NoError : {A : Type 0} (o : Option A) (s : Server) → NoError (unwrap o s).0
  unfolding unwrap
  unwrap-NoError none s = tt
  unwrap-NoError (some a) s = tt

  tried-NoError : {A : Type 0} (r : Outcome A) → NoError (tried r)
  tried-NoError (ok a) = tt
  tried-NoError (err e) = tt
  tried-NoError panic = tt
  tried-NoError diverges = tt

  try_fs-NoError : {A : Type 0} (m : Action A) (s : Server) → NoError (try_fs m s).0
  unfolding try_fs
  try_fs-NoError m s = tried-NoError (m s.world).0

  set-NoError : (c : Component) (s : Server) → NoError (on_fs (set_my_privilege c) s).0
  unfolding on_fs set_my_privilege
  set-NoError c s = tt

  backing_add-NoError : (k : ℕ) (v : Bytes) (w : World) → NoError (backing_add k v w).0
  unfolding backing_add
  backing_add-NoError k v w = elim (Bool-cases (is_some ((settle w).store k))) [
    | inl e ↦ rw e tt
    | inr e ↦ rw e tt
  ]

  initialize-NoError : (s : Server) → NoError (on_fs Ops.initialize s).0
  unfolding on_fs Ops.initialize
  initialize-NoError s = backing_add-NoError _ _ s.world

  module _ ⦃D : Digest⦄ where
    ended-LeftWith :
        (p : Component) (r : Outcome (Unit {0})) (s : Server)
        → s.world.privilege ≡ p
        → LeftWith p (proceed r (λ _. on_fs (set_my_privilege dc_true)) s)
    unfolding on_fs set_my_privilege
    ended-LeftWith p (ok a) s e = refl
    ended-LeftWith p (err x) s e = e
    ended-LeftWith p panic s e = tt
    ended-LeftWith p diverges s e = tt

    acting-LeftWith :
        (p : Component) (m : Call (Unit {0})) (s : Server)
        → Follows privilege_plan 0 0 m
        → LeftWith p ((do on_fs (set_my_privilege p); m; on_fs (set_my_privilege dc_true)) s)
    unfolding ◌>>=◌ on_fs set_my_privilege privilege_plan
    acting-LeftWith p m s h =
        let t : Server = record s { world = record s.world { privilege = p } } in
        ended-LeftWith p (m t).0 (m t).1 (h.at t)

    -- After prepare_fs its thread has no privilege, if it ends well. Where it returns an error, the
    -- thread still has the privilege of `faasten`.
    pub prepare_fs-LeftWith :
        (local_file : String → Option File) (file_name : String → Option String)
        (faasten : Component) (config : Config) (s : Server)
        → LeftWith faasten (prepare_fs local_file file_name faasten config s)
    unfolding prepare_fs faasten_label
    prepare_fs-LeftWith local_file file_name faasten config s =
        bind-LeftWith faasten _ _ s (unwrap-NoError _ s) λ label t.
          bind-LeftWith faasten _ _ t (initialize-NoError t) λ _ u.
            bind-LeftWith faasten _ _ u (set-NoError dc_false u) λ _ v.
              bind-LeftWith faasten _ _ v (try_fs-NoError (create_faceted root_path "home") v)
                λ _ w.
                  acting-LeftWith faasten (install local_file file_name label config) w
                    (Follows-install local_file file_name label config)
