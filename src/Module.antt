-- ===== src/Module.antt =====
-- src/popura/module.go: what `run` of cmd/yggdrasil asks of a Popura module.
pub mod Laws
use popura.Base.{Bool, true, false, ◌≡◌, Option}
use popura.Base.Panic.{Exec, value, ◌>>=◌}
use popura.Base.Text.{Bytes}
use popura.Config.{PopuraConfig}
use popura.Meshname
use popura.Meshname.{Server, MeshnameServer}
use popura.Autopeering.{Url}
use popura.Autopeering.Lifecycle
use popura.Autopeering.Lifecycle.{Loop, new_loop}

-- The interface `Module`. `create` is a new value and its `Init`; `start` returns the new state, and
-- whether there is no error. `UpdateConfig` and `SetupAdminHandlers` do nothing in both modules.
pub record Module : Type 1 where
  pub State : Type 0
  pub create : PopuraConfig → Exec State
  pub start : State → State × Bool
  pub stop : State → State
  pub is_started : State → Bool

-- What `run` relies on: `Start` of a module that the configuration does not enable does nothing and
-- returns no error.
pub record IsModule (m : Module) (enabled : PopuraConfig → Bool) : Type 0 where
  pub disabled_start :
      (config : PopuraConfig) (s : m.State)
      → enabled config ≡ false
      → m.create config ≡ value s
      → m.start s ≡ (s, true)

-- `MeshnameServer`
abbrev pub meshname_module : {S : Type 0} → Server S → Module
meshname_module {S} ops = record {
  State = MeshnameServer S;
  create = λ config. value (Meshname.init ops config);
  start = Meshname.start ops;
  stop = Meshname.stop ops;
  is_started = Meshname.is_started ops;
}

-- `AutoPeering`; its `Stop` and `Start` return no error, and `IsStarted` is always false.
abbrev pub autopeering_module : (Bytes → Option Url) → Bytes → Module
autopeering_module parse public_peers = record {
  State = Loop;
  create = λ config. Lifecycle.init parse public_peers config new_loop;
  start = λ ap. (Lifecycle.start ap, true);
  stop = Lifecycle.stop;
  is_started = λ ap. false;
}
