-- ===== src/Deploy/Pools/Requests.antt =====
-- The requests for a pool: buildCreatePoolRequest and buildPoolUpdateRequest
-- (internal/usecase/lbc_uc/deploy_pool.go). The messages for the log are left out.
use vngcloud_load_balancer_c.Base.{
  ℕ, Bool, true, false, not, ◌&&◌, ◌||◌, map, Option, none, some, Text, ◌==◌, nat_eq, text_eq,
  if◌then◌else◌, get_or, is_set,
}
use vngcloud_load_balancer_c.Api.{Pool, PoolHealthMonitor}
use vngcloud_load_balancer_c.Cloud.{CreatePoolRequest, HealthMonitor, PoolEntity, UpdatePoolRequest}
use vngcloud_load_balancer_c.Errs.{or_else}
use vngcloud_load_balancer_c.Members.{sent_member}
use vngcloud_load_balancer_c.Program.Calls.{Settings}

-- `Stickiness` and `TLSEncryption` are sent for layer 7 only.
unfoldable pub flag_for_layer_7 : Bool → Option Bool → Bool → Option Bool
flag_for_layer_7 is_layer_7 wanted default_flag =
    if is_layer_7 then some (get_or wanted default_flag) else none

unfoldable pub algorithm_or : Option Text → Text → Text
algorithm_or wanted default_algorithm =
    if is_set wanted then get_or wanted default_algorithm else default_algorithm

unfoldable pub build_create_pool_request : Settings → Text → Text → Pool → CreatePoolRequest
unfolding flag_for_layer_7 algorithm_or
build_create_pool_request s type lb_id pool =
    let h = pool.health_monitor in
    let d = s.pool_defaults in
    record {
      lb_id = lb_id;
      pool_name = pool.name;
      pool_protocol = pool.protocol;
      algorithm = algorithm_or pool.algorithm d.algorithm;
      stickiness = flag_for_layer_7 (type == s.layer7) pool.stickiness false;
      tls_encryption = flag_for_layer_7 (type == s.layer7) pool.tls_encryption false;
      health_monitor = record {
        protocol = h.protocol;
        healthy_threshold = get_or h.healthy_threshold d.healthy_threshold;
        unhealthy_threshold = get_or h.unhealthy_threshold d.unhealthy_threshold;
        interval = get_or h.interval d.interval;
        timeout = get_or h.timeout d.timeout;
        health_check_method = h.health_check_method;
        health_check_path = h.health_check_path;
        success_code = h.success_code;
        http_version = h.http_version;
        domain_name = h.domain_name;
      };
      members = map sent_member pool.members;
    }

-- A value is wanted, and another one is there.
differs_number : Option ℕ → ℕ → Bool
differs_number none current = false
differs_number (some n) current = not (n == current)

differs_flag : Option Bool → Bool → Bool
differs_flag none current = false
differs_flag (some true) current = not current
differs_flag (some false) current = current

differs_text : Option Text → Option Text → Bool
differs_text none current = false
differs_text (some t) none = true
differs_text (some t) (some current) = not (t == current)

-- How the protocol of the health check changes.
pub data Switch : Type 0 where
  http_to_http http_to_tcp tcp_to_http no_switch : Switch

module _ (s : Settings) where
  is_http : Text → Bool
  is_http protocol = protocol == s.check_http || protocol == s.check_https

  unfoldable pub switch : Text → Text → Switch
  unfolding is_http
  switch current wanted =
      if is_http current && is_http wanted
      then Switch.http_to_http
      else if is_http current && wanted == s.check_tcp
      then Switch.http_to_tcp
      else if current == s.check_tcp && is_http wanted
      then Switch.tcp_to_http
      else Switch.no_switch

-- An option of the health check after the switch.
unfoldable pub switched : Switch → Option Text → Option Text → Option Text
switched Switch.http_to_http wanted current = or_else wanted current
switched Switch.http_to_tcp wanted current = none
switched Switch.tcp_to_http wanted current = wanted
switched Switch.no_switch wanted current = current

options_differ : PoolHealthMonitor → HealthMonitor → Bool
unfolding differs_text
options_differ h m =
    differs_text h.health_check_method m.health_check_method
    || (differs_text h.health_check_path m.health_check_path
        || (differs_text h.success_code m.success_code
            || (differs_text h.http_version m.http_version
                || differs_text h.domain_name m.domain_name)))

-- Whether the switch asks for an update.
switch_differs : Switch → PoolHealthMonitor → HealthMonitor → Bool
unfolding options_differ
switch_differs Switch.http_to_http h m = options_differ h m
switch_differs Switch.http_to_tcp h m = true
switch_differs Switch.tcp_to_http h m = true
switch_differs Switch.no_switch h m = false

-- `isNeedUpdate`.
unfoldable pub pool_differs : Settings → Text → Pool → PoolEntity → HealthMonitor → Bool
unfolding differs_flag differs_number switch_differs switch
pool_differs s type pool current m =
    let h = pool.health_monitor in
    (type == s.layer7
      && (differs_flag pool.stickiness current.stickiness
          || differs_flag pool.tls_encryption current.tls_encryption))
    || (not (algorithm_or pool.algorithm current.load_balance_method == current.load_balance_method)
        || (differs_number h.healthy_threshold m.healthy_threshold
            || (differs_number h.unhealthy_threshold m.unhealthy_threshold
                || (differs_number h.interval m.interval
                    || (differs_number h.timeout m.timeout
                        || (not (h.protocol == m.protocol)
                            || switch_differs (switch s m.protocol h.protocol) h m))))))

-- What is sent: the wanted values, and the current ones elsewhere.
unfoldable pub updated_monitor : Settings → PoolHealthMonitor → HealthMonitor → HealthMonitor
unfolding switched switch
updated_monitor s h m =
    let change = switched (switch s m.protocol h.protocol) in
    record {
      protocol = h.protocol;
      healthy_threshold = get_or h.healthy_threshold m.healthy_threshold;
      unhealthy_threshold = get_or h.unhealthy_threshold m.unhealthy_threshold;
      interval = get_or h.interval m.interval;
      timeout = get_or h.timeout m.timeout;
      health_check_method = change h.health_check_method m.health_check_method;
      health_check_path = change h.health_check_path m.health_check_path;
      success_code = change h.success_code m.success_code;
      http_version = change h.http_version m.http_version;
      domain_name = change h.domain_name m.domain_name;
    }

unfoldable pub build_pool_update_request :
    Settings → Text → Text → Pool → PoolEntity → HealthMonitor → Option UpdatePoolRequest
unfolding pool_differs updated_monitor flag_for_layer_7 algorithm_or
build_pool_update_request s type lb_id pool current m =
    if pool_differs s type pool current m
    then some (record {
      lb_id = lb_id;
      pool_id = current.uuid;
      algorithm = algorithm_or pool.algorithm current.load_balance_method;
      stickiness = flag_for_layer_7 (type == s.layer7) pool.stickiness current.stickiness;
      tls_encryption =
          flag_for_layer_7 (type == s.layer7) pool.tls_encryption current.tls_encryption;
      health_monitor = updated_monitor s pool.health_monitor m;
    })
    else none
