-- ===== src/Service.antt =====
-- internal/mds/service*.go: the use cases of the metadata service, each a transaction of calls on the
-- repository. A request's time is that of the request, or the time `now` of the call.
pub mod Body
pub mod Upload
pub mod Create
pub mod Nodes
pub mod Paths
pub mod Mutation
pub mod Read
pub mod Invariant
pub mod Cache
pub mod Tests
