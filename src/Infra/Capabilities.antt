-- ===== src/Infra/Capabilities.antt =====
-- The structs of the capabilities, of internal/module/infra/template/types.go. `F` is float64; an `int` stays
-- far from its ends and is ℤ.
use release_engine.Prelude.{String, Bool, List, Dict}
use release_engine.Prelude.Int.{ℤ}

pub record KubernetesParams : Type 0 where
  pub enabled : Bool
  pub provider : String
  pub tier : String
  pub size : String
  pub multi_az : Bool
  pub version : String
  pub node_pool_count : ℤ

pub record VmDisk : Type 0 where
  pub name : String
  pub size_gib : ℤ
  pub type : String
  pub iops : ℤ
  pub throughput : ℤ
  pub mount_path : String
  pub encrypted : Bool

pub record VmAutoScale : Type 0 where
  pub enabled : Bool
  pub min_count : ℤ
  pub max_count : ℤ
  pub target_cpu : ℤ
  pub scale_policy : String

pub record VmParams (F : Type 0) : Type 0 where
  pub enabled : Bool
  pub provider : String
  pub count : ℤ
  pub instance_family : String
  pub size : String
  pub os_family : String
  pub os_image : String
  pub arch : String
  pub spot_enabled : Bool
  pub spot_max_price : F
  pub placement_group : String
  pub ssh_key_name : String
  pub user_data : String
  pub boot_disk_gib : ℤ
  pub boot_disk_type : String
  pub additional_disks : List VmDisk
  pub multi_az : Bool
  pub auto_scaling : VmAutoScale

pub record DatabaseParams : Type 0 where
  pub enabled : Bool
  pub provider : String
  pub engine : String
  pub tier : String
  pub storage_gib : ℤ
  pub storage_type : String
  pub iops : ℤ
  pub backup_enabled : Bool
  pub backup_retention_days : ℤ
  pub point_in_time_recovery : Bool
  pub parameter_group : String
  pub maintenance_window : String

pub record ObjectStoreParams : Type 0 where
  pub enabled : Bool
  pub provider : String
  pub class : String
  pub versioning : Bool
  pub retention_days : ℤ
  pub bucket_count : ℤ

pub record BlockVolume : Type 0 where
  pub name : String
  pub size_gib : ℤ
  pub type : String
  pub iops : ℤ
  pub throughput : ℤ
  pub multi_az : Bool
  pub encrypted : Bool
  pub snapshot_schedule : String

pub record BlockStoreParams : Type 0 where
  pub enabled : Bool
  pub provider : String
  pub volumes : List BlockVolume

pub record FileStoreParams : Type 0 where
  pub enabled : Bool
  pub provider : String
  pub performance_mode : String
  pub throughput_mode : String
  pub throughput_mibs : ℤ
  pub size_gib : ℤ
  pub protocol : String
  pub multi_az : Bool

pub record VpcPeer : Type 0 where
  pub peer_vpc_id : String
  pub peer_account : String
  pub peer_region : String

pub record VpcParams : Type 0 where
  pub enabled : Bool
  pub provider : String
  pub cidr : String
  pub private_subnets : ℤ
  pub public_subnets : ℤ
  pub nat_gateways : ℤ
  pub flow_logs : Bool
  pub transit_gateway : Bool
  pub peering_requests : List VpcPeer

pub record MessagingParams : Type 0 where
  pub enabled : Bool
  pub provider : String
  pub tier : String
  pub queue_count : ℤ
  pub topic_count : ℤ
  pub fifo : Bool
  pub encryption : Bool
  pub dlq_enabled : Bool
  pub dlq_max_retry : ℤ

pub record CacheParams : Type 0 where
  pub enabled : Bool
  pub provider : String
  pub engine : String
  pub tier : String
  pub node_type : String
  pub version : String
  pub replica_count : ℤ
  pub snapshot_retention_days : ℤ

pub record DnsRec : Type 0 where
  pub name : String
  pub type : String
  pub ttl : ℤ
  pub values : List String

pub record DnsParams : Type 0 where
  pub enabled : Bool
  pub provider : String
  pub zone_name : String
  pub private : Bool
  pub records : List DnsRec

pub record LbHealthCheck : Type 0 where
  pub path : String
  pub port : ℤ
  pub protocol : String
  pub interval_seconds : ℤ
  pub healthy_threshold : ℤ
  pub unhealthy_threshold : ℤ

pub record LoadBalancerParams : Type 0 where
  pub enabled : Bool
  pub provider : String
  pub type : String
  pub scheme : String
  pub https : Bool
  pub waf : Bool
  pub idle_timeout : ℤ
  pub health_check : LbHealthCheck

pub record CdnParams : Type 0 where
  pub enabled : Bool
  pub provider : String
  pub origin_type : String
  pub price_class : String
  pub cache_ttl : ℤ
  pub custom_domains : List String
  pub waf : Bool

pub record IamPolicy : Type 0 where
  pub effect : String
  pub actions : List String
  pub resource : String
  pub conditions : Dict String

pub record IdentityParams : Type 0 where
  pub enabled : Bool
  pub provider : String
  pub type : String
  pub service_account_count : ℤ
  pub policies : List IamPolicy
  pub federation_provider : String
  pub federation_audience : String

pub record SecretsParams : Type 0 where
  pub enabled : Bool
  pub provider : String
  pub kms_key_type : String
  pub kms_rotation_days : ℤ
  pub secret_count : ℤ
  pub auto_rotation : Bool
  pub rotation_interval_days : ℤ

pub record ObservabilityParams (F : Type 0) : Type 0 where
  pub enabled : Bool
  pub provider : String
  pub metrics_retention_days : ℤ
  pub metrics_resolution : String
  pub custom_metric_namespaces : List String
  pub log_retention_days : ℤ
  pub log_sink_type : String
  pub external_log_sink : String
  pub tracing_enabled : Bool
  pub tracing_sample_rate : F
  pub tracing_provider : String
  pub dashboard_enabled : Bool
