-- ===== src/Api.antt =====
-- The LoadBalancerConfig custom resource (api/v1alpha1/loadbalancerconfig_types.go).
-- A pointer field is an `Option`, a string or a string type of the SDK is a `Text`, a port, a
-- timeout or a weight is a number: the CRD schema admits no negative one.
mod Spec
mod Status
pub mod Equality
unfoldable pub use Spec.*
unfoldable pub use Status.*
