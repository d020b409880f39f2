-- ===== src/Deploy/LoadBalancer/Requests.antt =====
-- The requests for a new load balancer: buildCreateLoadBalancerRequest and
-- buildCreateInterVpcLoadBalancerRequest of deploy_lb.go, buildCreateListenerRequest and
-- findListenerCertificateId of deploy_listener.go (internal/usecase/lbc_uc).
pub mod Calls
use vngcloud_load_balancer_c.Base.{
  ℕ, Bool, true, false, not, ◌&&◌, List, [], ◌∷◌, ◌++◌, map, Option, none, some, Text, text, ◌==◌,
  nat_eq, text_eq, find?, if◌then◌else◌, get_or, is_set,
}
use vngcloud_load_balancer_c.Base.Maps.{Map}
use vngcloud_load_balancer_c.Api.{
  CreatedCertificate, CreatedPool, InsertHeader, Listener, ListenerCertificate, LoadBalancerConfig,
  Pool,
}
use vngcloud_load_balancer_c.Cloud.{
  CertificateEntity, CreateInterLoadBalancerRequest, CreateListenerRequest,
  CreateLoadBalancerRequest, CreatePoolRequest, PackageEntity,
}
use vngcloud_load_balancer_c.Deploy.Pools.Requests.{build_create_pool_request}
use vngcloud_load_balancer_c.Domain.{default_name_default_pool}
use vngcloud_load_balancer_c.Errs.{Error, new_no_need_requeue, or_else}
use vngcloud_load_balancer_c.Program.{Prog, ◌>>=◌, ◌>>◌, fail, pure, wrapping}
use vngcloud_load_balancer_c.Program.Calls.{Settings, get_user_id, list_certificates, list_packages}
use vngcloud_load_balancer_c.Tags.{build_tag}

-- A certificate that is found, or the error.
id_or : Text → Option Text → Prog Text
id_or message none = fail (Error.plain message)
id_or message (some id) = pure id

certificate_named : Text → List CertificateEntity → Option Text
certificate_named name certs = elim (find? (λ (c : CertificateEntity). c.name == name) certs) [
  | none ↦ none
  | some c ↦ some c.uuid
]

certificate_of_secret : Text → List CreatedCertificate → Option Text
certificate_of_secret secret certs =
    elim (find? (λ (c : CreatedCertificate). c.secret_name == secret) certs) [
      | none ↦ none
      | some c ↦ some c.id
    ]

find_by_name : Option Text → Prog Text
unfolding id_or certificate_named
find_by_name none =
    fail (Error.plain (text "listener certificate must have id, secretName or name"))
find_by_name (some name) = do
  certs ← list_certificates
  id_or (text "certificate with name " ++ (name ++ text " not found in vngcloud"))
      (certificate_named name certs)

find_by_secret : List CreatedCertificate → Option Text → Option Text → Prog Text
unfolding find_by_name id_or certificate_of_secret
find_by_secret created none name = find_by_name name
find_by_secret created (some secret) name =
    id_or
      (text "certificate with secret name "
        ++ (secret ++ text " not found in created certificates"))
      (certificate_of_secret secret created)

find_by_id : List CreatedCertificate → Option Text → Option Text → Option Text → Prog Text
unfolding find_by_secret
find_by_id created (some id) secret name = pure id
find_by_id created none secret name = find_by_secret created secret name

find_listener_certificate_id : List CreatedCertificate → ListenerCertificate → Prog Text
unfolding find_by_id
find_listener_certificate_id created cert = find_by_id created cert.id cert.secret_name cert.name

-- What `errors.Wrapf` writes of the certificate is left out of the message.
find_default : List CreatedCertificate → Option ListenerCertificate → Prog (Option Text)
unfolding find_listener_certificate_id
find_default created none = pure none
find_default created (some cert) =
    wrapping (text "find default certificate") (find_listener_certificate_id created cert) >>= λ id.
    pure (some id)

find_authorities : List CreatedCertificate → List ListenerCertificate → Prog (List Text)
unfolding find_listener_certificate_id
find_authorities created [] = pure []
find_authorities created (cert ∷ certs) = do
  id ← wrapping (text "find certificate authority") (find_listener_certificate_id created cert)
  rest ← find_authorities created certs
  pure (id ∷ rest)

-- An empty list is not set.
some_unless_empty : {A : Type 0} → List A → Option (List A)
some_unless_empty [] = none
some_unless_empty (x ∷ xs) = some (x ∷ xs)

flatten_headers : List InsertHeader → List Text
flatten_headers [] = []
flatten_headers (h ∷ hs) = h.header_name ∷ h.header_value ∷ flatten_headers hs

-- The default pool by name, if it is there.
default_pool_among : List CreatedPool → Option Text → Option Text
default_pool_among pools none = none
default_pool_among pools (some name) = elim (find? (λ (p : CreatedPool). p.name == name) pools) [
  | none ↦ none
  | some p ↦ some p.id
]

unfoldable pub build_create_listener_request :
    Settings
    → Text
    → Listener
    → List CreatedPool
    → List CreatedCertificate
    → Prog CreateListenerRequest
unfolding find_default find_authorities some_unless_empty flatten_headers default_pool_among
build_create_listener_request s lb_id l pools certs = do
  default_certificate ← find_default certs l.certificate_default
  authorities ← find_authorities certs l.certificate_authorities
  pure (record {
    lb_id = lb_id;
    listener_name = l.name;
    listener_protocol = l.protocol;
    listener_protocol_port = l.protocol_port;
    allowed_cidrs =
        if is_set l.allowed_cidrs
        then get_or l.allowed_cidrs s.default_allowed_cidrs
        else s.default_allowed_cidrs;
    blocked_cidrs = l.blocked_cidrs;
    default_action = l.default_action;
    timeout_client = get_or l.timeout_client s.load_balancer_defaults.timeout_client;
    timeout_member = get_or l.timeout_member s.load_balancer_defaults.timeout_member;
    timeout_connection = get_or l.timeout_connection s.load_balancer_defaults.timeout_connection;
    default_pool_id = default_pool_among pools l.default_pool_name;
    insert_headers = flatten_headers l.insert_headers;
    default_certificate_authority = default_certificate;
    certificate_authorities = some_unless_empty authorities;
    client_certificate = l.client_certificate_id;
  })

package_named : Text → List PackageEntity → Option Text
package_named name packages = elim (find? (λ (p : PackageEntity). p.name == name) packages) [
  | none ↦ none
  | some p ↦ if p.uuid == [] then none else some p.uuid
]

package_or : Text → Text → Option Text → Prog Text
package_or name zone none = fail (
    new_no_need_requeue
      (text "cannot find default load balancer package " ++ (name ++ (text " in zone " ++ zone))))
package_or name zone (some id) = pure id

module _ (s : Settings) (lbc : LoadBalancerConfig) where
  -- The name of the default package for the type; the empty one for none.
  default_package_name : Text
  default_package_name =
      if lbc.spec.type == s.layer4
      then s.load_balancer_defaults.l4_package_name
      else if lbc.spec.type == s.layer7
      then s.load_balancer_defaults.l7_package_name
      else []

  find_package : Text → List PackageEntity → Prog Text
  unfolding package_or package_named default_package_name
  find_package zone packages =
      let found =
        package_or default_package_name zone (package_named default_package_name packages) in
      if default_package_name == [] then pure [] else found

  choose_package : Prog Text
  unfolding find_package
  choose_package =
      let by_default = list_packages lbc.spec.zone_id >>= λ ps. find_package lbc.spec.zone_id ps in
      if is_set lbc.spec.package_id then pure (get_or lbc.spec.package_id []) else by_default

  -- The pool to create along: of layer 7 the default one.
  initial_pool : List Pool → Option Pool
  initial_pool [] = none
  initial_pool (p ∷ pools) =
      if lbc.spec.type == s.layer7
      then find? (λ (q : Pool). q.name == default_name_default_pool) (p ∷ pools)
      else some p

  initial_requests :
      List CreatedCertificate
      → Option Pool
      → List Listener
      → Prog (Option (CreateListenerRequest × CreatePoolRequest))
  initial_requests certs none listeners = pure none
  initial_requests certs (some pool) [] = pure none
  initial_requests certs (some pool) (l ∷ listeners) =
      build_create_listener_request s [] l [] certs >>= λ request.
      pure (some (request, build_create_pool_request s lbc.spec.type [] pool))

  -- `buildTag` from no tags; none where there is nothing to set.
  initial_tags : Map Text
  initial_tags = get_or (build_tag [] [] lbc.spec.tags) []

  unfoldable pub build_create_load_balancer_request :
      List CreatedCertificate → Prog CreateLoadBalancerRequest
  unfolding choose_package initial_pool initial_requests initial_tags
  build_create_load_balancer_request certs = do
    chosen ← choose_package
    initial ← initial_requests certs (initial_pool lbc.spec.pools) lbc.spec.listeners
    pure (record {
      name = lbc.spec.load_balancer_name;
      package_id = chosen;
      subnet_id = lbc.spec.subnet_id;
      zone_id = lbc.spec.zone_id;
      scheme = get_or lbc.spec.scheme s.load_balancer_defaults.scheme;
      auto_scalable = lbc.spec.enable_autoscale;
      type = if lbc.spec.type == [] then none else some lbc.spec.type;
      is_poc = lbc.spec.is_poc;
      listener_and_pool = initial;
      tags = initial_tags;
    })

  -- The user, off the configuration or the repository.
  known_user : ℕ → Prog ℕ
  known_user id =
      if id == 0
      then fail (
          new_no_need_requeue
            (text "userId is required, cannot get from config or vngcloud repository"))
      else pure id

  choose_user : Prog ℕ
  unfolding known_user
  choose_user =
      let asked = get_user_id >>= λ id. known_user id in
      if s.load_balancer_defaults.user_id == 0 then asked else pure s.load_balancer_defaults.user_id

  private_subnet : Prog Text
  private_subnet =
      if is_set lbc.spec.private_subnet_id
      then pure (get_or lbc.spec.private_subnet_id [])
      else fail
          (new_no_need_requeue (text "privateSubnetId is required for InterVpc load balancer"))

  private_zone : Text
  private_zone =
      if is_set lbc.spec.private_zone_id
      then get_or lbc.spec.private_zone_id []
      else lbc.spec.zone_id

  choose_inter_package : Prog Text
  unfolding package_or package_named private_zone
  choose_inter_package =
      let name = s.load_balancer_defaults.l4_package_name in
      let by_default =
        list_packages private_zone >>= λ ps. package_or name private_zone (package_named name ps) in
      if is_set lbc.spec.package_id then pure (get_or lbc.spec.package_id []) else by_default

  unfoldable pub build_create_inter_vpc_load_balancer_request : Prog CreateInterLoadBalancerRequest
  unfolding choose_user private_subnet private_zone choose_inter_package initial_tags
  build_create_inter_vpc_load_balancer_request = do
    user ← choose_user
    subnet ← private_subnet
    chosen ← choose_inter_package
    pure (record {
      user_id = user;
      name = lbc.spec.load_balancer_name;
      package_id = chosen;
      subnet_id = lbc.spec.subnet_id;
      private_subnet_id = subnet;
      zone_id = private_zone;
      tags = initial_tags;
    })
