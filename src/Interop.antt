-- ===== src/Interop.antt =====
-- The interop control plane (interop/).
pub mod ControlPlane
pub mod HttpDriver
