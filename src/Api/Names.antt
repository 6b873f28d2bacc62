-- ===== src/Api/Names.antt =====
-- The name rules of k8s.io/apimachinery/pkg/util/validation that the checks call: each tells
-- whether the list of errors that it returns is empty. They are not part of the repository.
use yanet_operator.Base.{Bool, String, nat_eq, string_eq, int_eq, option_eq}

pub record NameRules : Type 0 where
  pub is_dns1123_label : String → Bool
  pub is_dns1123_subdomain : String → Bool
  pub is_qualified_name : String → Bool
