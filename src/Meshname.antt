-- ===== src/Meshname.antt =====
-- src/meshname/module.go: the meshname module, over the server of the package meshname.
pub mod Session
mod Tests
use popura.Base.{Bool, true, false, ◌≡◌, List, [], ◌∷◌}
use popura.Base.Text.{Bytes}
use popura.Config.{PopuraConfig}

-- The server's calls; `Start` returns the new state, and whether there is no error.
pub record Server (S : Type 0) : Type 0 where
  pub new : Bytes → S
  pub start : S → S × Bool
  pub stop : S → S
  pub is_started : S → Bool

-- What its methods promise: `New` does not start it, `Start` without an error does, and after `Stop`
-- it is not started.
pub record IsServer {S : Type 0} (server : Server S) : Type 0 where
  pub new_idle : (listen : Bytes) → server.is_started (server.new listen) ≡ false
  pub start_starts :
      (s : S) → (server.start s).1 ≡ true → server.is_started (server.start s).0 ≡ true
  pub stop_stops : (s : S) → server.is_started (server.stop s) ≡ false

-- `MeshnameServer`
pub record MeshnameServer (S : Type 0) : Type 0 where
  pub server : S
  pub enable : Bool

module _ {S : Type 0} (ops : Server S) where
  -- `Init`
  unfoldable pub init : PopuraConfig → MeshnameServer S
  init config = record { server = ops.new config.meshname.listen; enable = config.meshname.enable }

  -- The branch on `s.enable`.
  unfoldable pub start_if : Bool → MeshnameServer S → MeshnameServer S × Bool
  start_if true m = let (s, ok) = ops.start m.server in (record m { server = s }, ok)
  start_if false m = (m, true)

  -- `Start`
  unfoldable pub start : MeshnameServer S → MeshnameServer S × Bool
  unfolding start_if
  start m = start_if m.enable m

  -- `Stop`
  unfoldable pub stop : MeshnameServer S → MeshnameServer S
  stop m = record m { server = ops.stop m.server }

  -- `IsStarted`
  unfoldable pub is_started : MeshnameServer S → Bool
  is_started m = ops.is_started m.server

-- A call of the module from outside.
pub data Call : Type 0 where
  start_called stop_called : Call

module _ {S : Type 0} (ops : Server S) where
  abbrev pub call : MeshnameServer S → Call → MeshnameServer S
  call m start_called = (start ops m).0
  call m stop_called = stop ops m

  -- The module after some calls.
  abbrev pub calls : MeshnameServer S → List Call → MeshnameServer S
  calls m [] = m
  calls m (c ∷ cs) = calls (call m c) cs
