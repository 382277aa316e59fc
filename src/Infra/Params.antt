-- ===== src/Infra/Params.antt =====
-- `ProvisionParams` of internal/module/infra/template/types.go, with its yaml names.
use release_engine.Prelude.{String, Bool, List, Dict}
use release_engine.Infra.Capabilities.{
  KubernetesParams, VmParams, DatabaseParams, ObjectStoreParams, BlockStoreParams, FileStoreParams,
  VpcParams, MessagingParams, CacheParams, DnsParams, LoadBalancerParams, CdnParams, IdentityParams,
  SecretsParams, ObservabilityParams,
}

pub record ProvisionParams (F : Type 0) : Type 0 where
  pub contract_version : String
  pub request_name : String
  pub tenant : String
  pub owner : String
  pub environment : String
  pub workload_profile : String
  pub catalogue_item : String
  pub namespace : String
  pub residency : String
  pub primary_region : String
  pub secondary_region : String
  pub availability : String
  pub data_classification : String
  pub compliance : List String
  pub workload_type : String
  pub workload_exposure : String
  pub ingress_mode : String
  pub egress_mode : String
  pub dr_required : Bool
  pub backup_required : Bool
  pub default_provider : String
  pub extra_tags : Dict String
  pub cost_centre : String
  pub business_unit : String
  pub project : String
  pub ttl : String
  pub kubernetes : KubernetesParams
  pub vm : VmParams F
  pub database : DatabaseParams
  pub object_store : ObjectStoreParams
  pub block_store : BlockStoreParams
  pub file_store : FileStoreParams
  pub vpc : VpcParams
  pub messaging : MessagingParams
  pub cache : CacheParams
  pub dns : DnsParams
  pub load_balancer : LoadBalancerParams
  pub cdn : CdnParams
  pub identity : IdentityParams
  pub secrets : SecretsParams
  pub observability : ObservabilityParams F
