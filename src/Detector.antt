-- ===== src/Detector.antt =====
-- app/detector: trip detection over the points of one device, and the reconciliation of its
-- result with the trips that are stored already.
pub mod Model
pub mod Filter
pub mod Ranges
pub mod Stays
pub mod Overrides
pub mod Trips
pub mod Reconcile
pub mod Merge
pub mod Tests
