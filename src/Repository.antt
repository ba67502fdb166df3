-- ===== src/Repository.antt =====
-- src/infrastructure/database/repositories: the base repository, and the queries and transactions of
-- the queue repository. Rows of the table are kept as `QueueEntry` records: the mapper of
-- src/infrastructure/database/mappers copies each field, and reads `undefined` as `null`.
pub mod Calls
pub mod Rows
pub mod Queries
pub mod Pages
pub mod Dashboard
pub mod Writes
pub mod Laws
pub mod Rules
pub mod Atomic
pub mod Quiet
pub mod View
pub mod Failures
pub mod Creation
pub mod Twins
