-- ===== src/Teardown/Certs/Unused.antt =====
-- Which certificates a cleanup deletes.
use vngcloud_load_balancer_c.Base.{
  ◌≡◌, refl, sym, ap, Bool-cases, inl, inr, true, false, List, [], ◌∷◌, All, Option, none, some,
  Text, arith, text_beq_refl, any,
}
use vngcloud_load_balancer_c.Api.{CreatedCertificate, LoadBalancerConfig}
use vngcloud_load_balancer_c.Cloud.{CertificateEntity}
use vngcloud_load_balancer_c.Errs.{Error, Result, ok, failed}
use vngcloud_load_balancer_c.Program.{Call, Prog, finish, ◌>>=◌, attempt, pure, wrapping}
use vngcloud_load_balancer_c.Program.Histories.{
  Event, History, Meets, Meets-bind, makes, returns, stops,
}
use vngcloud_load_balancer_c.Teardown.Certs.{
  candidates, delete_candidates, delete_listed, delete_redundant_certs, holds_certificate, on_cloud,
  unused,
}
use vngcloud_load_balancer_c.Teardown.Failures.{collect_failure, report}

-- The certificates were listed, and since then some were deleted at most.
pub data ListedAs (certs : List CertificateEntity) : History → Type 0 where
  listed : {h : History} → ListedAs certs (Event.event Call.list_certificates (Result.ok certs) ∷ h)
  deleted :
      {id : Text} {r : Result (Unit {0})} {h : History}
      → ListedAs certs h
      → ListedAs certs (Event.event (Call.delete_certificate id) r ∷ h)

module _ (lbc : LoadBalancerConfig) (kept : List CreatedCertificate) where
  -- The id is in the status, and not kept.
  abbrev HeldOnly : Text → Type 0
  HeldOnly id =
      (holds_certificate id lbc.status.created_certificates ≡ true)
      × (holds_certificate id kept ≡ false)

  -- A delete is of a certificate no longer wanted, listed as not in use.
  abbrev pub DeletesUnused : History → Call → Type 0
  DeletesUnused h c =
      (id : Text)
      → c ≡ Call.delete_certificate id
      → HeldOnly id
        × ((certs : List CertificateEntity) × (ListedAs certs h
              × ((cert : CertificateEntity) × ((on_cloud id certs ≡ some cert)
                    × (cert.in_use ≡ false)))))

  abbrev Safe : {A : Type 0} → History → Prog A → Type 0
  Safe h m = Meets DeletesUnused (λ _ _. Unit {0}) h m

  deleted_id : Call → Text
  deleted_id (Call.delete_certificate id) = id
  deleted_id _ = []

  unused-listed :
      (o : Option CertificateEntity)
      → unused o ≡ true
      → (cert : CertificateEntity) × ((o ≡ some cert) × (cert.in_use ≡ false))
  unfolding unused
  unused-listed none e = cc
  unused-listed (some cert) e = (cert, (refl, ground (arith, e)))

  -- What follows a delete is the same whether it failed or not.
  after-Meets :
      {h : History} (message : Text) (rest : Prog (List Error)) (r : Result (Unit {0}))
      → Safe h rest
      → Safe h (
          attempt (wrapping message (finish r)) >>= λ o.
          rest >>= λ failures. pure (collect_failure o failures))
  after-Meets message rest (ok _) p = Meets-bind p (λ _ _ _. returns tt)
  after-Meets message rest (failed e) p = Meets-bind p (λ _ _ _. returns tt)

  delete_candidates-Meets :
      (certs : List CertificateEntity) (ids : List Text) (h : History)
      → All HeldOnly ids
      → ListedAs certs h
      → Safe h (delete_candidates certs ids)
  unfolding delete_candidates deleted_id
  delete_candidates-Meets certs [] h _ l = returns tt
  delete_candidates-Meets certs (id ∷ ids) h (p, ps) l =
      elim (Bool-cases (unused (on_cloud id certs))) [
        | inr b ↦ rw b (delete_candidates-Meets certs ids h ps l)
        | inl b ↦ rw b (
            makes
              (λ j e.
                let same : j ≡ id = sym (ap deleted_id e) in
                rw same (p, (certs, (l, unused-listed (on_cloud id certs) b))))
              (λ r. after-Meets _ _ r (delete_candidates-Meets certs ids _ ps (deleted l))))
      ]

  report-Meets : (es : List Error) (h : History) → Safe h (report es)
  unfolding report
  report-Meets [] h = returns tt
  report-Meets (e ∷ es) h = stops

  delete_listed-Meets :
      (ids : List Text) (h : History) → All HeldOnly ids → Safe h (delete_listed ids)
  unfolding delete_listed
  delete_listed-Meets [] h _ = returns tt
  delete_listed-Meets (id ∷ ids) h ps =
      makes (λ j e. cc)
        (elim [
          | ok certs ↦
              Meets-bind (delete_candidates-Meets certs (id ∷ ids) _ ps listed)
                (λ g es _. report-Meets es g)
          | failed e ↦ stops
        ])

  candidates-HeldOnly :
      (held : List CreatedCertificate)
      → ((id : Text)
          → holds_certificate id held ≡ true
          → holds_certificate id lbc.status.created_certificates ≡ true)
      → All HeldOnly (candidates kept held)
  unfolding candidates any
  candidates-HeldOnly [] w = tt
  candidates-HeldOnly (c ∷ held) w =
      let rest = candidates-HeldOnly held (λ id e. w id (ground (arith, e))) in
      elim (Bool-cases (holds_certificate c.id kept)) [
        | inl b ↦ rw b rest
        | inr b ↦ rw b ((w c.id (ground (arith, text_beq_refl c.id)), b), rest)
      ]

  -- Whatever is replied, a cleanup of certificates deletes only certificates that are in the
  -- status and not among those to keep, and that the list it read shows as not in use; nothing
  -- but deletes of certificates comes between that list and the delete.
  pub delete_redundant_certs-DeletesUnused :
      (h : History) → Meets DeletesUnused (λ _ _. Unit {0}) h (delete_redundant_certs lbc kept)
  unfolding delete_redundant_certs
  delete_redundant_certs-DeletesUnused h =
      delete_listed-Meets _ h (candidates-HeldOnly lbc.status.created_certificates (λ id e. e))
