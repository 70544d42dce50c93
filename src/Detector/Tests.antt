-- ===== src/Detector/Tests.antt =====
-- A small track over concrete numbers, runs of the detector on it, and each theorem at inputs
-- that meet its hypotheses.
mod Sample
mod Filtering
mod Ranging
mod Staying
mod Overriding
mod Detecting
mod Reconciling
