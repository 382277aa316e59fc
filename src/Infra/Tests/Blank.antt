-- ===== src/Infra/Tests/Blank.antt =====
-- The zero values of the parameters.
use release_engine.Prelude.{false, []}
use release_engine.Prelude.Int.{pos}
use release_engine.Infra.Capabilities.{
  KubernetesParams, VmAutoScale, VmParams, DatabaseParams, ObjectStoreParams, BlockStoreParams,
  FileStoreParams, VpcParams, MessagingParams, CacheParams, DnsParams, LbHealthCheck,
  LoadBalancerParams, CdnParams, IdentityParams, SecretsParams, ObservabilityParams,
}
use release_engine.Infra.Params.{ProvisionParams}

abbrev pub no_kubernetes : KubernetesParams
no_kubernetes = record {
  enabled = false;
  provider = "";
  tier = "";
  size = "";
  multi_az = false;
  version = "";
  node_pool_count = pos 0;
}

abbrev pub no_vm_auto_scale : VmAutoScale
no_vm_auto_scale = record {
  enabled = false;
  min_count = pos 0;
  max_count = pos 0;
  target_cpu = pos 0;
  scale_policy = "";
}

abbrev pub no_vm : VmParams (Unit {0})
no_vm = record {
  enabled = false;
  provider = "";
  count = pos 0;
  instance_family = "";
  size = "";
  os_family = "";
  os_image = "";
  arch = "";
  spot_enabled = false;
  spot_max_price = tt;
  placement_group = "";
  ssh_key_name = "";
  user_data = "";
  boot_disk_gib = pos 0;
  boot_disk_type = "";
  additional_disks = [];
  multi_az = false;
  auto_scaling = no_vm_auto_scale;
}

abbrev pub no_database : DatabaseParams
no_database = record {
  enabled = false;
  provider = "";
  engine = "";
  tier = "";
  storage_gib = pos 0;
  storage_type = "";
  iops = pos 0;
  backup_enabled = false;
  backup_retention_days = pos 0;
  point_in_time_recovery = false;
  parameter_group = "";
  maintenance_window = "";
}

abbrev pub no_object_store : ObjectStoreParams
no_object_store = record {
  enabled = false;
  provider = "";
  class = "";
  versioning = false;
  retention_days = pos 0;
  bucket_count = pos 0;
}

abbrev pub no_block_store : BlockStoreParams
no_block_store = record { enabled = false; provider = ""; volumes = [] }

abbrev pub no_file_store : FileStoreParams
no_file_store = record {
  enabled = false;
  provider = "";
  performance_mode = "";
  throughput_mode = "";
  throughput_mibs = pos 0;
  size_gib = pos 0;
  protocol = "";
  multi_az = false;
}

abbrev pub no_vpc : VpcParams
no_vpc = record {
  enabled = false;
  provider = "";
  cidr = "";
  private_subnets = pos 0;
  public_subnets = pos 0;
  nat_gateways = pos 0;
  flow_logs = false;
  transit_gateway = false;
  peering_requests = [];
}

abbrev pub no_messaging : MessagingParams
no_messaging = record {
  enabled = false;
  provider = "";
  tier = "";
  queue_count = pos 0;
  topic_count = pos 0;
  fifo = false;
  encryption = false;
  dlq_enabled = false;
  dlq_max_retry = pos 0;
}

abbrev pub no_cache : CacheParams
no_cache = record {
  enabled = false;
  provider = "";
  engine = "";
  tier = "";
  node_type = "";
  version = "";
  replica_count = pos 0;
  snapshot_retention_days = pos 0;
}

abbrev pub no_dns : DnsParams
no_dns = record { enabled = false; provider = ""; zone_name = ""; private = false; records = [] }

abbrev pub no_lb_health_check : LbHealthCheck
no_lb_health_check = record {
  path = "";
  port = pos 0;
  protocol = "";
  interval_seconds = pos 0;
  healthy_threshold = pos 0;
  unhealthy_threshold = pos 0;
}

abbrev pub no_load_balancer : LoadBalancerParams
no_load_balancer = record {
  enabled = false;
  provider = "";
  type = "";
  scheme = "";
  https = false;
  waf = false;
  idle_timeout = pos 0;
  health_check = no_lb_health_check;
}

abbrev pub no_cdn : CdnParams
no_cdn = record {
  enabled = false;
  provider = "";
  origin_type = "";
  price_class = "";
  cache_ttl = pos 0;
  custom_domains = [];
  waf = false;
}

abbrev pub no_identity : IdentityParams
no_identity = record {
  enabled = false;
  provider = "";
  type = "";
  service_account_count = pos 0;
  policies = [];
  federation_provider = "";
  federation_audience = "";
}

abbrev pub no_secrets : SecretsParams
no_secrets = record {
  enabled = false;
  provider = "";
  kms_key_type = "";
  kms_rotation_days = pos 0;
  secret_count = pos 0;
  auto_rotation = false;
  rotation_interval_days = pos 0;
}

abbrev pub no_observability : ObservabilityParams (Unit {0})
no_observability = record {
  enabled = false;
  provider = "";
  metrics_retention_days = pos 0;
  metrics_resolution = "";
  custom_metric_namespaces = [];
  log_retention_days = pos 0;
  log_sink_type = "";
  external_log_sink = "";
  tracing_enabled = false;
  tracing_sample_rate = tt;
  tracing_provider = "";
  dashboard_enabled = false;
}

abbrev pub no_provision : ProvisionParams (Unit {0})
no_provision = record {
  contract_version = "";
  request_name = "";
  tenant = "";
  owner = "";
  environment = "";
  workload_profile = "";
  catalogue_item = "";
  namespace = "";
  residency = "";
  primary_region = "";
  secondary_region = "";
  availability = "";
  data_classification = "";
  compliance = [];
  workload_type = "";
  workload_exposure = "";
  ingress_mode = "";
  egress_mode = "";
  dr_required = false;
  backup_required = false;
  default_provider = "";
  extra_tags = [];
  cost_centre = "";
  business_unit = "";
  project = "";
  ttl = "";
  kubernetes = no_kubernetes;
  vm = no_vm;
  database = no_database;
  object_store = no_object_store;
  block_store = no_block_store;
  file_store = no_file_store;
  vpc = no_vpc;
  messaging = no_messaging;
  cache = no_cache;
  dns = no_dns;
  load_balancer = no_load_balancer;
  cdn = no_cdn;
  identity = no_identity;
  secrets = no_secrets;
  observability = no_observability;
}
