-- ===== src/Teardown/Certs.antt =====
-- The cleanup of certificates: deleteRedundantCerts (internal/usecase/lbc_uc/deploy_cert.go).
pub mod Unused
mod Examples
use vngcloud_load_balancer_c.Base.{
  Bool, true, false, not, List, [], ◌∷◌, ◌++◌, Option, none, some, Text, text, ◌==◌, text_eq, any,
  if◌then◌else◌,
}
use vngcloud_load_balancer_c.Api.{CreatedCertificate, LoadBalancerConfig}
use vngcloud_load_balancer_c.Cloud.{CertificateEntity}
use vngcloud_load_balancer_c.Errs.{Error}
use vngcloud_load_balancer_c.Program.{Prog, ◌>>=◌, attempt, pure, wrapping}
use vngcloud_load_balancer_c.Program.Calls.{delete_certificate, list_certificates}
use vngcloud_load_balancer_c.Teardown.Failures.{collect_failure, report}

abbrev pub holds_certificate : Text → List CreatedCertificate → Bool
holds_certificate id certs = any (λ (c : CreatedCertificate). c.id == id) certs

-- What is held and no longer wanted.
candidates : List CreatedCertificate → List CreatedCertificate → List Text
candidates kept [] = []
candidates kept (c ∷ held) =
    let rest = candidates kept held in if holds_certificate c.id kept then rest else c.id ∷ rest

-- `onCloud`: of two certificates with one id the last counts.
unfoldable pub on_cloud : Text → List CertificateEntity → Option CertificateEntity
on_cloud id [] = none
on_cloud id (c ∷ certs) = elim (on_cloud id certs) [
  | some d ↦ some d
  | none ↦ if c.uuid == id then some c else none
]

unused : Option CertificateEntity → Bool
unused none = false
unused (some c) = not c.in_use

-- The loop: what failed.
delete_candidates : List CertificateEntity → List Text → Prog (List Error)
unfolding unused on_cloud
delete_candidates certs [] = pure []
delete_candidates certs (id ∷ ids) =
    let rest = delete_candidates certs ids in
    let both = do
      r ←
          attempt
            (wrapping (text "certificate " ++ (id ++ text ": delete")) (delete_certificate id))
      failures ← rest
      pure (collect_failure r failures)
    in if unused (on_cloud id certs) then both else rest

delete_listed : List Text → Prog (Unit {0})
unfolding delete_candidates
delete_listed [] = pure tt
delete_listed (id ∷ ids) = do
  certs ← list_certificates
  failures ← delete_candidates certs (id ∷ ids)
  report failures

unfoldable pub delete_redundant_certs :
    LoadBalancerConfig → List CreatedCertificate → Prog (Unit {0})
unfolding delete_listed candidates
delete_redundant_certs lbc kept = delete_listed (candidates kept lbc.status.created_certificates)
