-- ===== src/Samples.antt =====
-- Concrete data for the examples.
use vngcloud_load_balancer_c.Base.{ℕ, false, List, [], Option, none, some, Text, text}
use vngcloud_load_balancer_c.Base.Maps.{Map}
use vngcloud_load_balancer_c.Api.{
  PoolMember, Listener, LoadBalancerConfigSpec, LoadBalancerConfigStatus, LoadBalancerConfig,
}
use vngcloud_load_balancer_c.Acl.{Net}
use vngcloud_load_balancer_c.Program.Calls.{Settings}

abbrev pub cluster_a : Text
cluster_a = text "k8s-aaaaaaaaaaaaaaaaaaaaaaaaaaaaaaaaaaaa"

abbrev pub cluster_b : Text
cluster_b = text "k8s-bbbbbbbbbbbbbbbbbbbbbbbbbbbbbbbbbbbb"

abbrev pub spec_of : Option Text → Option Text → List Listener → LoadBalancerConfigSpec
spec_of cluster pin listeners = record {
  type = text "Layer 7";
  cluster_id = cluster;
  load_balancer_name = text "web";
  subnet_id = [];
  vpc_id = text "net-1";
  backend_subnet_id = none;
  private_subnet_id = none;
  private_zone_id = none;
  zone_id = [];
  package_id = none;
  scheme = none;
  load_balancer_id = pin;
  enable_autoscale = none;
  tags = [];
  is_poc = none;
  listeners = listeners;
  pools = [];
  create_certificates = [];
}

abbrev pub status_of : Option Text → Option Text → Map Text → LoadBalancerConfigStatus
status_of created adopted tags = record {
  observed_generation = none;
  last_reconcile_message = [];
  address = none;
  load_balancer_id = some (text "lb-1");
  adopted_load_balancer_id = adopted;
  retiring_load_balancer = none;
  created_load_balancer_id = created;
  load_balancer_name = none;
  type = none;
  subnet_id = none;
  zone_id = none;
  created_tags = tags;
  created_pools = [];
  created_listeners = [];
  created_certificates = [];
}

abbrev pub config : Text → LoadBalancerConfigSpec → LoadBalancerConfigStatus → LoadBalancerConfig
config name spec status = record {
  namespace = text "shop";
  name = name;
  uid = name;
  deleting = false;
  generation = 1;
  spec = spec;
  status = status;
}

abbrev pub member : Text → ℕ → PoolMember
member ip port = record {
  ip = ip;
  port = port;
  monitor_port = port;
  name = ip;
  weight = none;
  backup = none;
}

abbrev pub listener : Text → ℕ → Option Text → Listener
listener protocol port pool = record {
  name = [];
  description = none;
  protocol = protocol;
  protocol_port = port;
  default_pool_name = pool;
  timeout_client = none;
  timeout_member = none;
  timeout_connection = none;
  allowed_cidrs = none;
  blocked_cidrs = none;
  default_action = none;
  insert_headers = [];
  policies = [];
  certificate_default = none;
  certificate_authorities = [];
  client_certificate_id = none;
}

-- Go's package net, as far as the examples need it: no text is a CIDR or an address.
abbrev pub no_net : Net
no_net = record { parse_cidr = λ s. none; parse_ipv4 = λ s. none }

abbrev pub settings : Settings
settings = record {
  layer4 = text "Layer 4";
  layer7 = text "Layer 7";
  https = text "HTTPS";
  check_http = text "HTTP";
  check_https = text "HTTPs";
  check_tcp = text "TCP";
  redirect_to_pool = text "REDIRECT_TO_POOL";
  redirect_to_url = text "REDIRECT_TO_URL";
  pool_defaults = record {
    healthy_threshold = 3;
    unhealthy_threshold = 3;
    interval = 30;
    timeout = 5;
    algorithm = text "ROUND_ROBIN";
  };
  inter_vpc = text "InterVpc";
  load_balancer_defaults = record {
    scheme = text "Internet";
    l4_package_name = text "NLB_Small";
    l7_package_name = text "ALB_Small";
    user_id = 0;
    timeout_client = 50;
    timeout_member = 50;
    timeout_connection = 5;
  };
  net = no_net;
  show_duration = λ d. text "3m0s";
  default_allowed_cidrs = text "0.0.0.0/0";
}
