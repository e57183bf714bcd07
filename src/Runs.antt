-- ===== src/Runs.antt =====
-- Concrete runs of the model, and the theorems at concrete inputs.
mod Samples
mod Wire
mod Handshakes
mod Manifests
mod Files
mod Downloads
mod Network
mod Host
mod Link
mod Context
mod Config
