-- ===== src/Domain.antt =====
-- internal/domain: the constants that the tag and teardown logic uses.
use vngcloud_load_balancer_c.Base.{ℕ, Text, text}

abbrev pub vpc_tag_key : Text
vpc_tag_key = text "vng.vpc.id"

abbrev pub billing_tag_key : Text
billing_tag_key = text "vng.billing.product"

abbrev pub billing_tag_value : Text
billing_tag_value = text "vks"

abbrev pub cluster_tag_key : Text
cluster_tag_key = text "vng.vks.cluster.ids"

abbrev pub created_by_cluster_tag_key : Text
created_by_cluster_tag_key = text "vng.vks.created-by-cluster"

abbrev pub cluster_tag_value_separator : ℕ
cluster_tag_value_separator = b'/'

abbrev pub vks_cluster_id_prefix : Text
vks_cluster_id_prefix = text "k8s-"

abbrev pub vks_cluster_id_length : ℕ
vks_cluster_id_length = 40

-- The text of `ErrorLoadBalancerStatusError`.
abbrev pub load_balancer_status_error : Text
load_balancer_status_error = text "load balancer status is error"

abbrev pub default_name_default_pool : Text
default_name_default_pool = text "vks_default_pool"
