-- ===== src/Teardown/Delete/Safe.antt =====
-- The teardown of a resource, with what it still owes a retiring load balancer.
use vngcloud_load_balancer_c.Base.{
  refl, Bool-cases, inl, inr, [], Option, none, some, Text, get_or, is_set,
}
use vngcloud_load_balancer_c.Api.{LoadBalancerConfig, RetiringLoadBalancer}
use vngcloud_load_balancer_c.Program.{◌>>◌, pure}
use vngcloud_load_balancer_c.Program.Calls.{Settings}
use vngcloud_load_balancer_c.Program.Histories.{
  Extends, Gives-anything, History, Meets, Meets-bind, Meets-weaken, Only-Meets, returns, same,
}
use vngcloud_load_balancer_c.Program.Only.{Only, Only-bind, ended}
use vngcloud_load_balancer_c.Status.{
  status_set_retiring_load_balancer, status_set_retiring_load_balancer-Only,
}
use vngcloud_load_balancer_c.Teardown.Delete.{
  delete, delete_retiring, teardown_retiring_load_balancer,
}
use vngcloud_load_balancer_c.Teardown.Delete.Grounds.{Guarded, Guarded-other}
use vngcloud_load_balancer_c.Teardown.Delete.Grounds.Steps.{delete_load_balancer_of-Meets}
use vngcloud_load_balancer_c.Teardown.Delete.Retiring.{retiring_stays_within_record}
use vngcloud_load_balancer_c.Teardown.Scope.{stays_within}

module _ (s : Settings) (lbc : LoadBalancerConfig) where
  abbrev target : Text
  target = get_or lbc.status.load_balancer_id []

  delete_retiring-Meets :
      (h : History) (o : Option RetiringLoadBalancer)
      → Meets (Guarded lbc target) (λ _ _. Unit {0}) h (delete_retiring s lbc o)
  unfolding delete_retiring stays_within
  delete_retiring-Meets h none = returns tt
  delete_retiring-Meets h (some r) =
      let t = stays_within r.id r.created_listeners r.created_pools in
      let o : Only t (
          teardown_retiring_load_balancer s lbc r
          >> (status_set_retiring_load_balancer none lbc >> pure tt)) =
        Only-bind (retiring_stays_within_record s lbc r) (λ _.
          Only-bind (status_set_retiring_load_balancer-Only none lbc (λ _. refl)) (λ _. ended _)) in
      let x : Extends t h h = same in
      Meets-weaken (Only-Meets (Guarded-other lbc target t (λ _. refl)) o (Gives-anything _) x)
        (λ _ _ _. tt)

  -- Whatever is replied, a teardown deletes no load balancer but the one in its status, and that
  -- only after a fresh read of its tags showed that this cluster created it; or, a fresh read
  -- having shown this cluster as the last one out, no other resource was found on it, and nothing
  -- but lists was read since. And its listeners and pools were listed, with all of them recorded
  -- as created, and nothing has been written or waited for since.
  pub delete_has_grounds :
      Meets
        (Guarded lbc (get_or lbc.status.load_balancer_id []))
        (λ _ _. Unit {0})
        []
        (delete s lbc)
  unfolding delete
  delete_has_grounds =
      Meets-bind (delete_retiring-Meets [] lbc.status.retiring_load_balancer) (λ h _ _.
        elim (Bool-cases (is_set lbc.status.load_balancer_id)) [
          | inl e ↦ rw e (delete_load_balancer_of-Meets s lbc target h)
          | inr e ↦ rw e (returns tt)
        ])
