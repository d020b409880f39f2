-- ===== src/Teardown/Certs/Examples.antt =====
-- A resource that holds two certificates and keeps one.
use vngcloud_load_balancer_c.Base.{[], ◌∷◌, none, some, Text, text}
use vngcloud_load_balancer_c.Api.{CreatedCertificate, LoadBalancerConfig}
use vngcloud_load_balancer_c.Program.Histories.{Meets}
use vngcloud_load_balancer_c.Samples.{cluster_a, config, spec_of, status_of}
use vngcloud_load_balancer_c.Teardown.Certs.{delete_redundant_certs}
use vngcloud_load_balancer_c.Teardown.Certs.Unused.{
  DeletesUnused, delete_redundant_certs-DeletesUnused,
}

abbrev certificate : Text → CreatedCertificate
certificate id = record {
  secret_name = text "web-tls";
  resource_version = text "7";
  id = id;
  certificate_name = none;
}

abbrev holding : LoadBalancerConfig
holding =
    config (text "web") (spec_of (some cluster_a) none [])
      (record (status_of (some (text "lb-1")) none []) {
        created_certificates = certificate (text "old") ∷ certificate (text "new") ∷ [];
      })

delete_redundant_certs-DeletesUnused_example :
    Meets
      (DeletesUnused holding (certificate (text "new") ∷ []))
      (λ _ _. Unit {0})
      []
      (delete_redundant_certs holding (certificate (text "new") ∷ []))
delete_redundant_certs-DeletesUnused_example =
    delete_redundant_certs-DeletesUnused holding (certificate (text "new") ∷ []) []
