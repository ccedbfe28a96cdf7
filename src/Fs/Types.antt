-- ===== src/Fs/Types.antt =====
-- The objects of the file system: the types of snapfaas/src/fs/mod.rs and function.rs.
use faasten.Base.{ℕ, String, List}
use faasten.Base.Dict.{Dict}
use faasten.Labels.{Labels, Component, Buckle}

pub data HttpVerb : Type 0 where
  head get post put delete : HttpVerb

-- `memory` is a `usize`.
pub record Function : Type 0 where
  pub memory : ℕ
  pub app_image : String
  pub runtime_image : String
  pub kernel : String

-- The types that an `ObjectRef` is a reference to, its phantom parameter in the source: `Labeled`
-- of an item, or the unlabelled `FacetedDirectory`.
pub data Item : Type 0 where
  directory file gate service blob direct_gate : Item

pub data Kind : Type 0 where
  labeled : Item → Kind
  faceted : Kind

-- A `u64` that names an object of the backing store.
pub record ObjectRef (k : Kind) : Type 0 where
  pub uid : ℕ

abbrev pub DirectoryRef : Type 0
DirectoryRef = ObjectRef (Kind.labeled Item.directory)

abbrev pub FileRef : Type 0
FileRef = ObjectRef (Kind.labeled Item.file)

abbrev pub FacetedRef : Type 0
FacetedRef = ObjectRef Kind.faceted

abbrev pub GateRef : Type 0
GateRef = ObjectRef (Kind.labeled Item.gate)

abbrev pub ServiceRef : Type 0
ServiceRef = ObjectRef (Kind.labeled Item.service)

abbrev pub BlobRef : Type 0
BlobRef = ObjectRef (Kind.labeled Item.blob)

pub data DirEntry : Type 0 where
  directory : DirectoryRef → DirEntry
  file : FileRef → DirEntry
  faceted_directory : FacetedRef → DirEntry
  gate : GateRef → DirEntry
  service : ServiceRef → DirEntry
  blob : BlobRef → DirEntry

pub record Directory : Type 0 where
  pub entries : Dict String DirEntry

abbrev pub File : Type 0
File = List ℕ

-- The name of a blob of the blob store.
abbrev pub Blob : Type 0
Blob = String

abbrev pub root_ref : DirectoryRef
root_ref = record { uid = 0 }

module _ ⦃L : Labels⦄ where
  pub record Labeled (T : Type 0) : Type 0 where
    pub label : Buckle
    pub contents : T

  pub record FacetedDirectory : Type 0 where
    pub facets : List (Buckle × DirectoryRef)

  pub record Service : Type 0 where
    pub privilege : Component
    pub invoker_integrity_clearance : Component
    pub taint : Buckle
    pub url : String
    pub verb : HttpVerb
    pub headers : Dict String String

  pub record RedirectGate : Type 0 where
    pub privilege : Component
    pub invoker_integrity_clearance : Component
    pub declassify : Component
    pub gate : GateRef

  pub record DirectGate : Type 0 where
    pub privilege : Component
    pub invoker_integrity_clearance : Component
    pub declassify : Component
    pub function : Function

  pub data Gate : Type 0 where
    direct : DirectGate → Gate
    redirect : RedirectGate → Gate

  abbrev pub Payload : Item → Type 0
  Payload Item.directory = Directory
  Payload Item.file = File
  Payload Item.gate = Gate
  Payload Item.service = Service
  Payload Item.blob = Blob
  Payload Item.direct_gate = DirectGate

  abbrev pub Stored : Kind → Type 0
  Stored (Kind.labeled i) = Labeled (Payload i)
  Stored Kind.faceted = FacetedDirectory
