-- ===== src/Config.antt =====
-- src/popura/config.go: the configuration of the Popura modules.
use popura.Base.{Bool, false}
use popura.Base.Text.{Bytes, bytes}

pub record AutopeeringConfig : Type 0 where
  pub enable : Bool

pub record MeshnameConfig : Type 0 where
  pub enable : Bool
  pub listen : Bytes

pub record PopuraConfig : Type 0 where
  pub autopeering : AutopeeringConfig
  pub meshname : MeshnameConfig

-- `GenerateConfig`
unfoldable pub generate_config : PopuraConfig
generate_config = record {
  autopeering = record { enable = false };
  meshname = record { enable = false; listen = bytes "[::1]:53535" };
}
