-- ===== src/Fs/Errors.antt =====
-- snapfaas/src/fs/errors.rs. Constructors that two error types share are told apart by their type.
pub data LabelError : Type 0 where
  cannot_read cannot_write : LabelError

pub data PrivilegeError : Type 0 where
  cannot_delegate : PrivilegeError

pub data LinkError : Type 0 where
  label_error : LabelError → LinkError
  exists : LinkError

pub data UnlinkError : Type 0 where
  label_error : LabelError → UnlinkError
  does_not_exists : UnlinkError

pub data GateError : Type 0 where
  cannot_delegate cannot_invoke corrupted : GateError

pub data FacetError : Type 0 where
  unallocated : FacetError
  label_error : LabelError → FacetError
  none_value corrupted : FacetError

pub data ServiceError : Type 0 where
  cannot_delegate cannot_invoke corrupted : ServiceError

pub data FsError : Type 0 where
  bad_path not_a_dir not_a_faceted_dir not_a_file not_a_blob not_a_gate not_a_service : FsError
  malformed_redirect_target clearance_error : FsError
  label_error : LabelError → FsError
  privilege_error : PrivilegeError → FsError
  gate_error : GateError → FsError
  link_error : LinkError → FsError
  unlink_error : UnlinkError → FsError
  facet_error : FacetError → FsError
  service_error : ServiceError → FsError
  name_exists invalid_fd : FsError
