-- ===== src/Fs/Object.antt =====
-- Objects of the file system: the methods of `ObjectRef` and `Labeled` in snapfaas/src/fs/mod.rs.
mod Core
mod Contents
pub mod Steps
pub mod Directory
pub mod Races
pub mod Fresh
pub mod Gates
pub mod Files
unfoldable pub use Core.{
  new_ref, decode, encode, decode_swap, get, set, set_new_id_loop, set_new_id, cas, unlabel, write,
  check_flow, modify, create, get_labeled,
}
unfoldable pub use Contents.{
  list, insert_entry, link_loop, link, remove_entry, unlink_loop, unlink, read_file_ref,
  write_file_ref, find_facet, facets_of, empty_directory, check_delegation, open_loop, open_facet,
  readable_facets, list_facets, service_to_invokable, service_replace, resolve_loop,
  gate_to_invokable, gate_privilege, gate_replace, direct_gate_to_invokable, read_blob_ref,
  blob_replace,
}
