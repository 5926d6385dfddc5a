-- ===== src/Workloads.antt =====
-- services/api/aries_api/workloads: the detectors that the benchmarks run, each in a module.
pub mod Raster
pub mod ShipDetect
pub mod CloudMask
pub mod Pixels
pub mod Recompress
mod Tests
pub mod Landcover
pub mod NdviSummary
pub mod PayloadProxy
pub mod Quicklook
