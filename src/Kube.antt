-- ===== src/Kube.antt =====
-- The part of the Kubernetes API and of client-go that the controller uses.
pub mod Objects
pub mod Api
