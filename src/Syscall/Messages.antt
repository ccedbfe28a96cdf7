-- ===== src/Syscall/Messages.antt =====
-- The messages between a function and its system call server: snapfaas/src/syscalls.proto, and the
-- messages to the scheduler that the server sends and reads. Labels stand in them as labels;
-- the conversions of snapfaas/src/syscalls.rs are in Syscall.Conversions.
use faasten.Base.{ℕ, zero, suc, String, Bool, Option, List}
use faasten.Base.Dict.{Dict}
use faasten.Labels.{Labels, Component, Buckle}
use faasten.Fs.Types.{File, HttpVerb, head, get, post, put, delete, Function}

-- The four numbers are `u64`; three of them are descriptors of entries that are blobs.
pub record FunctionMessage : Type 0 where
  pub memory : ℕ
  pub app_image : ℕ
  pub runtime : ℕ
  pub kernel : ℕ

pub record Response : Type 0 where
  pub body : Option File
  pub status_code : ℕ

pub data DentKind : Type 0 where
  dent_directory dent_file dent_faceted_directory dent_gate dent_service dent_blob : DentKind

-- `HttpVerb::from_i32(verb).unwrap_or(HttpVerb::HttpHead)`.
unfoldable pub verb_of : ℕ → HttpVerb
verb_of (suc zero) = get
verb_of (suc (suc zero)) = post
verb_of (suc (suc (suc zero))) = put
verb_of (suc (suc (suc (suc zero)))) = delete
verb_of _ = head

pub record DentResult : Type 0 where
  pub success : Bool
  pub fd : Option ℕ
  pub contents : Option File

pub record DentInvokeResult : Type 0 where
  pub success : Bool
  pub fd : Option ℕ
  pub contents : Option File
  pub headers : Dict String File

pub record DentOpenResult : Type 0 where
  pub success : Bool
  pub fd : ℕ
  pub kind : DentKind

pub record DentListResult : Type 0 where
  pub success : Bool
  pub entries : Dict String DentKind

pub record BlobResult : Type 0 where
  pub success : Bool
  pub fd : ℕ
  pub len : ℕ
  pub contents : Option File

module _ ⦃L : Labels⦄ where
  pub record DirectGateMessage : Type 0 where
    pub privilege : Option Component
    pub invoker_integrity_clearance : Option Component
    pub function : Option FunctionMessage
    pub declassify : Option Component

  pub record RedirectGateMessage : Type 0 where
    pub privilege : Option Component
    pub invoker_integrity_clearance : Option Component
    pub gate : ℕ
    pub declassify : Option Component

  pub data GateMessage : Type 0 where
    direct : DirectGateMessage → GateMessage
    redirect : RedirectGateMessage → GateMessage

  pub record ServiceMessage : Type 0 where
    pub privilege : Option Component
    pub invoker_integrity_clearance : Option Component
    pub taint : Option Buckle
    pub url : String
    pub verb : ℕ
    pub headers : Dict String String

  pub data OpenEntry : Type 0 where
    name : String → OpenEntry
    facet : Buckle → OpenEntry

  pub data CreateKind : Type 0 where
    directory file faceted_directory : CreateKind
    gate : Option GateMessage → CreateKind
    service : ServiceMessage → CreateKind
    blob : ℕ → CreateKind

  pub data UpdateKind : Type 0 where
    file : File → UpdateKind
    gate : Option GateMessage → UpdateKind
    service : ServiceMessage → UpdateKind
    blob : ℕ → UpdateKind

  pub record DentLsFacetedResult : Type 0 where
    pub success : Bool
    pub facets : List Buckle

  pub record DentLsGateResult : Type 0 where
    pub success : Bool
    pub gate : Option GateMessage

  pub data Syscall : Type 0 where
    response : Response → Syscall
    buckle_parse : String → Syscall
    get_current_label : Syscall
    taint_with_label : Buckle → Syscall
    declassify : Component → Syscall
    sub_privilege : List String → Syscall
    root : Syscall
    dent_open : ℕ → Option OpenEntry → Syscall
    dent_close : ℕ → Syscall
    dent_create : Option CreateKind → Option Buckle → Syscall
    dent_update : Option UpdateKind → ℕ → Syscall
    dent_read dent_list dent_ls_gate dent_get_blob : ℕ → Syscall
    dent_ls_faceted : ℕ → Option Buckle → Syscall
    dent_link : ℕ → String → ℕ → Syscall
    dent_unlink : ℕ → String → Syscall
    dent_invoke : ℕ → Bool → File → Bool → Dict String String → Syscall
    blob_create : Option ℕ → Syscall
    blob_write : ℕ → File → Syscall
    blob_finalize blob_close : ℕ → Syscall
    blob_read : ℕ → Option ℕ → Option ℕ → Syscall

  pub data Reply : Type 0 where
    -- The encoding of `()`.
    nothing : Reply
    maybe_buckle : Option Buckle → Reply
    current_label : Buckle → Reply
    dent_result : DentResult → Reply
    open_result : DentOpenResult → Reply
    list_result : DentListResult → Reply
    ls_faceted_result : DentLsFacetedResult → Reply
    ls_gate_result : DentLsGateResult → Reply
    invoke_result : DentInvokeResult → Reply
    blob_result : BlobResult → Reply
    request : File → Dict String ℕ → Dict String String → List (List String) → Reply

  -- The message to the scheduler, and the one it sends back; a task's result has a code, too.
  pub record LabeledInvoke : Type 0 where
    pub function : Function
    pub label : Buckle
    pub gate_privilege : Component
    pub payload : File
    pub headers : Dict String String
    pub sync : Bool
    pub invoker : Component

  pub data ReturnCode : Type 0 where
    resource_exhausted launch_failed process_request_failed gate_not_exist success queue_full :
        ReturnCode
    unknown_code : ℕ → ReturnCode

  pub record TaskReturn : Type 0 where
    pub code : ReturnCode
    pub payload : Option Response
    pub label : Option Buckle
