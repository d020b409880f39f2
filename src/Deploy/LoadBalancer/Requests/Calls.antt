-- ===== src/Deploy/LoadBalancer/Requests/Calls.antt =====
-- Building a request looks up certificates, packages and the user, and writes nothing.
use vngcloud_load_balancer_c.Base.{
  refl, ℕ, Bool, true, false, List, [], ◌∷◌, Option, none, some, Text, ◌==◌, nat_eq, text_eq,
  is_set,
}
use vngcloud_load_balancer_c.Api.{
  CreatedCertificate, CreatedPool, Listener, ListenerCertificate, LoadBalancerConfig, Pool,
}
use vngcloud_load_balancer_c.Cloud.{PackageEntity}
use vngcloud_load_balancer_c.Deploy.LoadBalancer.Requests.{
  build_create_inter_vpc_load_balancer_request, build_create_listener_request,
  build_create_load_balancer_request, choose_inter_package, choose_package, choose_user,
  default_package_name, find_authorities, find_by_id, find_by_name, find_by_secret, find_default,
  find_listener_certificate_id, find_package, id_or, initial_requests, known_user, package_or,
  private_subnet,
}
use vngcloud_load_balancer_c.Program.{Call, Prog}
use vngcloud_load_balancer_c.Program.Calls.{Settings}
use vngcloud_load_balancer_c.Program.Only.{Only, Only-bind, Only-if, Only-wrapping, calls, ended}

-- Lookups for a request.
unfoldable pub is_lookup : Call → Bool
is_lookup Call.list_certificates = true
is_lookup (Call.list_packages _) = true
is_lookup Call.get_user_id = true
is_lookup _ = false

abbrev LooksUp : {A : Type 0} → Prog A → Type 0
LooksUp m = Only is_lookup m

id_or-Only : (message : Text) (o : Option Text) → LooksUp (id_or message o)
unfolding id_or
id_or-Only message none = ended _
id_or-Only message (some id) = ended _

find_by_name-Only : (o : Option Text) → LooksUp (find_by_name o)
unfolding find_by_name is_lookup
find_by_name-Only none = ended _
find_by_name-Only (some name) = Only-bind (calls refl (λ r. ended r)) (λ _. search id_or-Only)

find_by_secret-Only :
    (certs : List CreatedCertificate) (secret name : Option Text)
    → LooksUp (find_by_secret certs secret name)
unfolding find_by_secret
find_by_secret-Only certs none name = find_by_name-Only name
find_by_secret-Only certs (some secret) name = search id_or-Only

find_by_id-Only :
    (certs : List CreatedCertificate) (id secret name : Option Text)
    → LooksUp (find_by_id certs id secret name)
unfolding find_by_id
find_by_id-Only certs (some id) secret name = ended _
find_by_id-Only certs none secret name = find_by_secret-Only certs secret name

find_listener_certificate_id-Only :
    (certs : List CreatedCertificate) (cert : ListenerCertificate)
    → LooksUp (find_listener_certificate_id certs cert)
unfolding find_listener_certificate_id
find_listener_certificate_id-Only certs cert =
    find_by_id-Only certs cert.id cert.secret_name cert.name

find_default-Only :
    (certs : List CreatedCertificate) (o : Option ListenerCertificate)
    → LooksUp (find_default certs o)
unfolding find_default
find_default-Only certs none = ended _
find_default-Only certs (some cert) =
    Only-bind (Only-wrapping _ (find_listener_certificate_id-Only certs cert)) (λ _. ended _)

find_authorities-Only :
    (certs : List CreatedCertificate) (cas : List ListenerCertificate)
    → LooksUp (find_authorities certs cas)
unfolding find_authorities
find_authorities-Only certs [] = ended _
find_authorities-Only certs (ca ∷ cas) =
    Only-bind (Only-wrapping _ (find_listener_certificate_id-Only certs ca))
      (λ _. Only-bind (find_authorities-Only certs cas) (λ _. ended _))

build_create_listener_request-Only :
    (s : Settings) (lb_id : Text) (l : Listener) (pools : List CreatedPool)
    (certs : List CreatedCertificate)
    → LooksUp (build_create_listener_request s lb_id l pools certs)
unfolding build_create_listener_request
build_create_listener_request-Only s lb_id l pools certs =
    Only-bind (find_default-Only certs l.certificate_default)
      (λ _. Only-bind (find_authorities-Only certs l.certificate_authorities) (λ _. ended _))

package_or-Only : (name zone : Text) (o : Option Text) → LooksUp (package_or name zone o)
unfolding package_or
package_or-Only name zone none = ended _
package_or-Only name zone (some id) = ended _

module _ (s : Settings) (lbc : LoadBalancerConfig) where
  find_package-Only :
      (zone : Text) (packages : List PackageEntity) → LooksUp (find_package s lbc zone packages)
  unfolding find_package
  find_package-Only zone packages =
      Only-if (default_package_name s lbc == []) (λ _. ended _) (λ _. search package_or-Only)

  choose_package-Only : LooksUp (choose_package s lbc)
  unfolding choose_package is_lookup
  choose_package-Only =
      Only-if (is_set lbc.spec.package_id) (λ _. ended _)
        (λ _. Only-bind (calls refl (λ r. ended r)) (λ ps. find_package-Only _ ps))

  initial_requests-Only :
      (certs : List CreatedCertificate) (pool : Option Pool) (ls : List Listener)
      → LooksUp (initial_requests s lbc certs pool ls)
  unfolding initial_requests
  initial_requests-Only certs none ls = ended _
  initial_requests-Only certs (some pool) [] = ended _
  initial_requests-Only certs (some pool) (l ∷ ls) =
      Only-bind (build_create_listener_request-Only s [] l [] certs) (λ _. ended _)

  pub build_create_load_balancer_request-Only :
      (certs : List CreatedCertificate) → LooksUp (build_create_load_balancer_request s lbc certs)
  unfolding build_create_load_balancer_request
  build_create_load_balancer_request-Only certs =
      Only-bind choose_package-Only
        (λ _. Only-bind (initial_requests-Only certs _ lbc.spec.listeners) (λ _. ended _))

  known_user-Only : (id : ℕ) → LooksUp (known_user s lbc id)
  unfolding known_user
  known_user-Only id = Only-if (id == 0) (λ _. ended _) (λ _. ended _)

  choose_user-Only : LooksUp (choose_user s lbc)
  unfolding choose_user is_lookup
  choose_user-Only =
      Only-if (s.load_balancer_defaults.user_id == 0) (λ _. calls refl (λ id. known_user-Only id))
        (λ _. ended _)

  private_subnet-Only : LooksUp (private_subnet s lbc)
  unfolding private_subnet
  private_subnet-Only = Only-if (is_set lbc.spec.private_subnet_id) (λ _. ended _) (λ _. ended _)

  choose_inter_package-Only : LooksUp (choose_inter_package s lbc)
  unfolding choose_inter_package is_lookup
  choose_inter_package-Only =
      Only-if (is_set lbc.spec.package_id) (λ _. ended _)
        (λ _. Only-bind (calls refl (λ r. ended r)) (λ ps. search package_or-Only))

  pub build_create_inter_vpc_load_balancer_request-Only :
      LooksUp (build_create_inter_vpc_load_balancer_request s lbc)
  unfolding build_create_inter_vpc_load_balancer_request
  build_create_inter_vpc_load_balancer_request-Only =
      Only-bind choose_user-Only (λ _.
        Only-bind private_subnet-Only (λ _. Only-bind choose_inter_package-Only (λ _. ended _)))
