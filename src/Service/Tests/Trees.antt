-- ===== src/Service/Tests/Trees.antt =====
-- Witnesses and tests of the use cases that delete directories.
use astra_storage.Base.{Bool, true, ◌≡◌}
use astra_storage.Store.State.{err, diverged}
use astra_storage.Store.Inode.Tests.{grown, grown-IsTree}
use astra_storage.Service.Mutation.{DeleteDirectoryRequest, delete_directory}
use astra_storage.Service.Mutation.Ends.{delete_directory_ends}

abbrev pics_request : Bool → DeleteDirectoryRequest
pics_request recursive = record { inode_id = "i2"; recursive = recursive; deleted_at = 0 }

delete_directory_ends_example : ¬ ((delete_directory (pics_request true) grown).0.1 ≡ err diverged)
delete_directory_ends_example = delete_directory_ends grown (pics_request true) grown-IsTree
