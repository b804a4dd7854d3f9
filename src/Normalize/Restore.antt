-- ===== src/Normalize/Restore.antt =====
-- src/sensorium/runtime/model_base.py and model_normalize.py over their own results, as state.py exports them.
pub mod Texts
pub mod Numbers
pub mod HexBytes
pub mod Dicts
pub mod Sorted
pub mod Parts
pub mod Settings
pub mod Scripts
pub mod Backends
pub mod Workers
pub mod Places
pub mod Loops
pub mod Devices
pub mod Whole
