-- ===== src/UseCases.antt =====
-- src/application/use-cases: the handlers of the service.
pub mod Lookup
pub mod Occupancy
pub mod Seat
pub mod Cancel
pub mod Skip
pub mod Assign
pub mod Register
pub mod Ring
pub mod Twins
pub mod QueueEta
pub mod StaffQueue
pub mod Machine
