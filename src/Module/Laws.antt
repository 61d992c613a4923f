-- ===== src/Module/Laws.antt =====
-- The two modules do nothing unless the configuration enables them.
use popura.Base.{Bool, true, ◌≡◌, Option}
use popura.Base.Panic.{value->>=, Returns-at}
use popura.Base.Text.{Bytes}
use popura.Meshname.{Server, start, init}
use popura.Autopeering.{Url}
use popura.Autopeering.Lifecycle
use popura.Autopeering.Lifecycle.{Loop, new_loop, get_public_peers}
use popura.Module.{IsModule, meshname_module, autopeering_module}

pub meshname-IsModule :
    {S : Type 0} (ops : Server S)
    → IsModule (meshname_module ops) (λ config. config.meshname.enable)
unfolding start init
meshname-IsModule ops = record {
  disabled_start = λ config s off made. Returns-at (λ m. start ops m ≡ (m, true)) made (rw off);
}

pub autopeering-IsModule :
    (parse : Bytes → Option Url) (public_peers : Bytes)
    → IsModule (autopeering_module parse public_peers) (λ config. config.autopeering.enable)
unfolding Lifecycle.init Lifecycle.start
autopeering-IsModule parse public_peers = record {
  disabled_start = λ config s off made.
      let (peers, h, e) = value->>= (get_public_peers parse public_peers) _ s made in
      Returns-at (λ ap. ◌≡◌ {A = Loop × Bool} (Lifecycle.start ap, true) (ap, true)) e (rw off);
}
