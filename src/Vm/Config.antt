-- ===== src/Vm/Config.antt =====
-- The configuration of a VM (snapfaas/src/configs.rs, snapfaas/src/fs/function.rs), and the arguments
-- that `Vm::launch` of snapfaas/src/vm.rs makes of it. A number is written in decimal.
use faasten.Base.{ℕ, String, Bool, true, false, not, Option, none, some, List, [], ◌∷◌, ◌++◌}
use faasten.Fs.Types.{Function}

pub record FunctionConfig : Type 0 where
  pub mac : Option String
  pub tap : Option String
  pub runtimefs : String
  pub appfs : Option String
  pub vcpus : ℕ
  pub memory : ℕ
  pub concurrency_limit : ℕ
  pub load_dir : Option String
  pub copy_base : Bool
  pub copy_diff : Bool
  pub kernel : String
  pub cmdline : Option String
  pub dump_dir : Option String
  pub dump_ws : Bool
  pub load_ws : Bool

-- `default`.
abbrev pub default_config : FunctionConfig
default_config = record {
  mac = none;
  tap = none;
  runtimefs = "";
  appfs = none;
  vcpus = 1;
  memory = 128;
  concurrency_limit = 1;
  load_dir = none;
  copy_base = false;
  copy_diff = true;
  kernel = "";
  cmdline = none;
  dump_dir = none;
  dump_ws = false;
  load_ws = false;
}

-- `From<Function>`.
abbrev pub config_of : Function → FunctionConfig
config_of f = record default_config {
  memory = f.memory;
  runtimefs = f.runtime_image;
  appfs = some f.app_image;
  kernel = f.kernel;
}

abbrev pub or_empty : Option String → String
or_empty none = ""
or_empty (some s) = s

-- `From<FunctionConfig> for Function`.
abbrev pub function_of : FunctionConfig → Function
function_of c = record {
  memory = c.memory;
  app_image = or_empty c.appfs;
  runtime_image = c.runtimefs;
  kernel = c.kernel;
}

pub record OdirectOption : Type 0 where
  pub base : Bool
  pub diff : Bool
  pub rootfs : Bool
  pub appfs : Bool

pub data Arg : Type 0 where
  text : String → Arg
  number : ℕ → Arg

abbrev pub push_if : Bool → String → List Arg
push_if true name = Arg.text name ∷ []
push_if false name = []

abbrev pub first_args : ℕ → ℕ → FunctionConfig → List Arg
first_args id cid c =
    Arg.text "--id"
    ∷ Arg.number id
    ∷ Arg.text "--kernel"
    ∷ Arg.text c.kernel
    ∷ Arg.text "--memory"
    ∷ Arg.number c.memory
    ∷ Arg.text "--vcpu"
    ∷ Arg.number c.vcpus
    ∷ Arg.text "--rootfs"
    ∷ Arg.text c.runtimefs
    ∷ Arg.text "--vsock-cid"
    ∷ Arg.number cid
    ∷ []

abbrev pub app_args : Option String → List Arg
app_args none = []
app_args (some f) = Arg.text "--appfs" ∷ Arg.text f ∷ []

abbrev pub load_args : Option String → Bool → Bool → Bool → List Arg
load_args none copy_base copy_diff load_ws = []
load_args (some dir) copy_base copy_diff load_ws =
    Arg.text "--load-dir" ∷ Arg.text dir ∷ push_if copy_base "--copy-base"
    ++ (push_if copy_diff "--copy-diff" ++ push_if load_ws "--load-ws")

abbrev pub dump_args : Option String → Bool → List Arg
dump_args none dump_ws = []
dump_args (some dir) dump_ws = Arg.text "--dump-to" ∷ Arg.text dir ∷ push_if dump_ws "--dump-ws"

abbrev pub kernel_args : Option String → List Arg
kernel_args (some cmdline) = Arg.text "--kernel-args" ∷ Arg.text cmdline ∷ []
kernel_args none = Arg.text "--kernel-args" ∷ Arg.text "console=ttyS0" ∷ []

-- No result where `tap` is missing, which panics.
abbrev pub network_args : Option String → Option String → Option (List Arg)
network_args none tap = some []
network_args (some mac) none = none
network_args (some mac) (some tap) =
    some (Arg.text "--tap-name" ∷ Arg.text tap ∷ Arg.text "--mac" ∷ Arg.text mac ∷ [])

abbrev pub odirect_args : Option OdirectOption → List Arg
odirect_args none = []
odirect_args (some o) =
    push_if o.base "--odirect-base"
    ++ (push_if (not o.diff) "--no-odirect-diff"
        ++ (push_if (not o.rootfs) "--no-odirect-root" ++ push_if (not o.appfs) "--no-odirect-app"))

abbrev pub joined : List Arg → Option (List Arg) → List Arg → Option (List Arg)
joined before none after = none
joined before (some args) after = some (before ++ (args ++ after))

-- The arguments of `firerunner`, in order.
unfoldable pub launch_args : ℕ → ℕ → FunctionConfig → Option OdirectOption → Option (List Arg)
launch_args id cid c odirect =
    joined
      (first_args id cid c
        ++ (app_args c.appfs
            ++ (load_args c.load_dir c.copy_base c.copy_diff c.load_ws
                ++ (dump_args c.dump_dir c.dump_ws ++ kernel_args c.cmdline))))
      (network_args c.mac c.tap) (odirect_args odirect)
