-- ===== src/Deploy.antt =====
-- The deploy of what a resource asks for (internal/usecase/lbc_uc).
pub mod LoadBalancer
pub mod Pools
pub mod Policies
mod Examples
