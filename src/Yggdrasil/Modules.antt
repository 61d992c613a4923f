-- ===== src/Yggdrasil/Modules.antt =====
-- The Popura modules in a run of the node.
use popura.Base.{Bool, false, ◌≡◌, [], ◌∷◌}
use popura.Base.Panic.{value}
use popura.Config.{PopuraConfig}
use popura.Module.{Module, IsModule}
use popura.Yggdrasil.Trace.{Part, meshname, autopeering, set_up, traced, lift, emit_all, ◌>>=◌}
use popura.Yggdrasil.Args.{YggArgs}
use popura.Yggdrasil.Config.{World, popura_config}
use popura.Yggdrasil.{start_module, setup_modules}

start_module-disabled :
    (m : Module) (enabled : PopuraConfig → Bool) (config : PopuraConfig) (p : Part) (s : m.State)
    → IsModule m enabled
    → enabled config ≡ false
    → m.create config ≡ value s
    → start_module m config p ≡ traced (set_up p ∷ []) (value s)
unfolding lift emit_all ◌>>=◌
start_module-disabled m enabled config p s i off made =
    rw (made, i.disabled_start config s off made)

-- Where neither -meshname nor -autopeer is set, for any two modules that keep the interface's
-- promise and whose `Init` returns: the set-up goes through both without a panic, and leaves each
-- in the state that its `Init` made.
setup_modules-disabled :
    (w : World) (args : YggArgs) (s : w.meshname.State) (t : w.autopeering.State)
    → IsModule w.meshname (λ config. config.meshname.enable)
    → IsModule w.autopeering (λ config. config.autopeering.enable)
    → args.meshnameenable ≡ false
    → args.autopeer ≡ false
    → w.meshname.create (popura_config args) ≡ value s
    → w.autopeering.create (popura_config args) ≡ value t
    → setup_modules w args ≡ traced (set_up meshname ∷ set_up autopeering ∷ []) (value (s, t))
unfolding setup_modules lift ◌>>=◌
setup_modules-disabled w args s t i j m a made made' = rw (
  start_module-disabled w.meshname _ (popura_config args) meshname s i m made,
  start_module-disabled w.autopeering _ (popura_config args) autopeering t j a made',
)
