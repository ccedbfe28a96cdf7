-- ===== src/Vm/Options.antt =====
-- The options of `firerunner` (snapfaas/src/cli.rs), and which of the arguments that
-- snapfaas/src/vm.rs gives it are among them.
use mathlib.Core.List.{append-nil, append_assoc}
use faasten.Base.{
  ℕ, String, ◌≡◌, refl, sym, ap, ◌∙◌, Bool, true, false, not, ◌&&◌, ◌||◌, Option, none, some, List,
  [], ◌∷◌, ◌++◌, name_eq, is_some,
}
use faasten.Base.Dict
use faasten.Base.Dict.{Dict}
use faasten.Vm.Config.{
  FunctionConfig, OdirectOption, Arg, push_if, first_args, app_args, load_args, dump_args,
  kernel_args, network_args, odirect_args, joined, launch_args,
}

-- The names of the long options, which clap makes of the names of the fields, and whether each has
-- a value.
abbrev pub options : Dict String Bool
options =
    ("--id", true)
    ∷ ("--kernel", true)
    ∷ ("--kernel-args", true)
    ∷ ("--rootfs", true)
    ∷ ("--appfs", true)
    ∷ ("--memory", true)
    ∷ ("--vcpu", true)
    ∷ ("--vsock-cid", true)
    ∷ ("--mac", true)
    ∷ ("--tap", true)
    ∷ ("--load-dir", true)
    ∷ ("--load-ws", false)
    ∷ ("--copy-base-memory", false)
    ∷ ("--copy-diff-memory", false)
    ∷ ("--odirect-base", false)
    ∷ ("--no-odirect-diff", false)
    ∷ ("--dump-dir", true)
    ∷ ("--dump-ws", false)
    ∷ ("--no-odirect-root", false)
    ∷ ("--no-odirect-app", false)
    ∷ []

-- Every argument is the name of an option or the value that one has. What options require of one
-- another is left out.
unfoldable pub known_from : Bool → List Arg → Bool
known_from false [] = true
known_from true [] = false
known_from true (a ∷ rest) = known_from false rest
known_from false (Arg.number n ∷ rest) = false
known_from false (Arg.text name ∷ rest) = elim (Dict.get name options) [
  | none ↦ false
  | some has_value ↦ known_from has_value rest
]

unfoldable pub understood : Option (List Arg) → Bool
unfolding known_from
understood none = false
understood (some args) = known_from false args

known_first :
    (id cid : ℕ) (c : FunctionConfig) (rest : List Arg)
    → known_from false (first_args id cid c ++ rest) ≡ known_from false rest
unfolding known_from Dict.get
known_first id cid c rest = refl

known_app :
    (o : Option String) (rest : List Arg)
    → known_from false (app_args o ++ rest) ≡ known_from false rest
unfolding known_from Dict.get
known_app none rest = refl
known_app (some f) rest = refl

-- No snapshot is loaded, or none of its parts is copied.
abbrev pub plain_load : Option String → Bool → Bool → Bool
plain_load none copy_base copy_diff = true
plain_load (some dir) copy_base copy_diff = not (copy_base || copy_diff)

known_load :
    (o : Option String) (b d w : Bool) (rest : List Arg)
    → known_from false (load_args o b d w ++ rest) ≡ (plain_load o b d && known_from false rest)
unfolding known_from Dict.get
known_load none b d w rest = refl
known_load (some dir) true d w rest = refl
known_load (some dir) false true w rest = refl
known_load (some dir) false false true rest = refl
known_load (some dir) false false false rest = refl

known_dump :
    (o : Option String) (w : Bool) (rest : List Arg)
    → known_from false (dump_args o w ++ rest) ≡ (not (is_some o) && known_from false rest)
unfolding known_from Dict.get
known_dump none w rest = refl
known_dump (some dir) w rest = refl

known_kernel :
    (o : Option String) (rest : List Arg)
    → known_from false (kernel_args o ++ rest) ≡ known_from false rest
unfolding known_from Dict.get
known_kernel none rest = refl
known_kernel (some s) rest = refl

known_flag :
    (b : Bool) (name : String) (rest : List Arg)
    → Dict.get name options ≡ some false
    → known_from false (push_if b name ++ rest) ≡ known_from false rest
unfolding known_from
known_flag true name rest e = rw (known_from, e) refl
known_flag false name rest e = refl

known_odirect : (o : Option OdirectOption) → known_from false (odirect_args o) ≡ true
unfolding known_from Dict.get
known_odirect none = refl
known_odirect (some o) =
    known_flag o.base "--odirect-base" _ refl
    ∙ (known_flag (not o.diff) "--no-odirect-diff" _ refl
        ∙ (known_flag (not o.rootfs) "--no-odirect-root" _ refl
            ∙ (ap (known_from false) (sym (append-nil (push_if (not o.appfs) "--no-odirect-app")))
                ∙ known_flag (not o.appfs) "--no-odirect-app" [] refl)))

nowhere : (a b : Bool) → (a && (b && false)) ≡ false
nowhere true true = refl
nowhere true false = refl
nowhere false b = refl

module _ (id cid : ℕ) (c : FunctionConfig) (odirect : Option OdirectOption) where
  -- The configurations that the command line can carry.
  abbrev pub carried : Bool
  carried =
      plain_load c.load_dir c.copy_base c.copy_diff
      && (not (is_some c.dump_dir) && not (is_some c.mac))

  abbrev before : List Arg
  before =
      first_args id cid c
      ++ (app_args c.appfs
          ++ (load_args c.load_dir c.copy_base c.copy_diff c.load_ws
              ++ (dump_args c.dump_dir c.dump_ws ++ kernel_args c.cmdline)))

  known_before :
      (rest : List Arg)
      → known_from false (before ++ rest) ≡ (
          plain_load c.load_dir c.copy_base c.copy_diff
          && (not (is_some c.dump_dir) && known_from false rest))
  known_before rest =
      rw
        (
          append_assoc (first_args id cid c),
          append_assoc (app_args c.appfs),
          append_assoc (load_args c.load_dir c.copy_base c.copy_diff c.load_ws),
          append_assoc (dump_args c.dump_dir c.dump_ws),
          known_first id cid c,
          known_app c.appfs,
          known_load c.load_dir c.copy_base c.copy_diff c.load_ws,
          known_dump c.dump_dir c.dump_ws,
          known_kernel c.cmdline,
        )
        refl

  understood-joined :
      (mac tap : Option String)
      → understood (joined before (network_args mac tap) (odirect_args odirect)) ≡ (
          plain_load c.load_dir c.copy_base c.copy_diff
          && (not (is_some c.dump_dir) && not (is_some mac)))
  unfolding understood known_from Dict.get
  understood-joined none tap = rw (known_before (odirect_args odirect), known_odirect odirect) refl
  understood-joined (some mac) none =
      sym (nowhere (plain_load c.load_dir c.copy_base c.copy_diff) (not (is_some c.dump_dir)))
  understood-joined (some mac) (some tap) = known_before (
      Arg.text "--tap-name" ∷ Arg.text tap ∷ Arg.text "--mac" ∷ Arg.text mac ∷ odirect_args odirect)

  -- The arguments with which a VM is launched are options of `firerunner` exactly where no part of a
  -- snapshot is to be copied, none is to be made, and there is no network device: else the launch
  -- passes options that the program does not have, or panics.
  pub understood-launch_args : understood (launch_args id cid c odirect) ≡ carried
  unfolding launch_args
  understood-launch_args = understood-joined c.mac c.tap
