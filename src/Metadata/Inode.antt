-- ===== src/Metadata/Inode.antt =====
-- internal/mds/metadata/inode.go
use astra_storage.Base.{ℕ, String, Option}
use astra_storage.Base.Int.{ℤ}

abbrev pub root_inode_id : String
root_inode_id = "root"

abbrev pub InodeType : Type 0
InodeType = String

abbrev pub inode_type_file : InodeType
inode_type_file = "file"

abbrev pub inode_type_directory : InodeType
inode_type_directory = "directory"

abbrev pub InodeStatus : Type 0
InodeStatus = String

abbrev pub inode_status_active : InodeStatus
inode_status_active = "active"

abbrev pub inode_status_deleting : InodeStatus
inode_status_deleting = "deleting"

abbrev pub inode_status_deleted : InodeStatus
inode_status_deleted = "deleted"

abbrev pub InodeId : Type 0
InodeId = String

pub record DirectoryEntry : Type 0 where
  pub parent_id : InodeId
  pub child_id : InodeId
  pub name : String
  pub type : InodeType
  pub created_at : ℕ
  pub updated_at : ℕ

pub record InodeMetadata : Type 0 where
  pub id : InodeId
  pub parent_id : InodeId
  pub file_id : String
  pub path : String
  pub name : String
  pub type : InodeType
  pub status : InodeStatus
  pub size : ℤ
  pub permissions : ℕ
  pub owner : String
  pub group : String
  pub link_count : ℤ
  pub generation : ℤ
  pub created_at : ℕ
  pub updated_at : ℕ
  pub accessed_at : Option ℕ
