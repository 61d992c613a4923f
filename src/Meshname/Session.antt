-- ===== src/Meshname/Session.antt =====
-- src/meshname/module.go: the meshname module over any calls of `Start` and `Stop`.
use popura.Base.{Bool, true, false, ◌≡◌, refl, sym, List, [], ◌∷◌}
use mathlib.Core.Path.{subst}
use popura.Config.{PopuraConfig}
use popura.Meshname.{
  Server, IsServer, MeshnameServer, init, start_if, start, stop, is_started, Call, start_called,
  stop_called, call, calls,
}

module _ {S : Type 0} (ops : Server S) (lawful : IsServer ops) where
  start_if-enable :
      (enable : Bool) (m : MeshnameServer S)
      → ops.is_started m.server ≡ false
      → (start_if ops enable m).1 ≡ true
      → (is_started ops (start_if ops enable m).0 ≡ enable)
        × (is_started ops (stop ops (start_if ops enable m).0) ≡ false)
  unfolding start_if stop is_started
  start_if-enable true m h ok = (lawful.start_starts m.server ok, lawful.stop_stops _)
  start_if-enable false m h ok = (h, lawful.stop_stops _)

  -- After `Init`, when `Start` returns no error, the module is started exactly when the configuration
  -- enables it, and after `Stop` it is not.
  start-init_enable :
      (config : PopuraConfig)
      → (start ops (init ops config)).1 ≡ true
      → (is_started ops (start ops (init ops config)).0 ≡ config.meshname.enable)
        × (is_started ops (stop ops (start ops (init ops config)).0) ≡ false)
  unfolding init start
  start-init_enable config ok =
      start_if-enable config.meshname.enable (init ops config)
        (lawful.new_idle config.meshname.listen) ok

  -- The switch is that of the configuration, and a disabled module is not started.
  record Follows (enable : Bool) (m : MeshnameServer S) : Type 0 where
    keeps : m.enable ≡ enable
    idle : enable ≡ false → is_started ops m ≡ false

  init-Follows : (config : PopuraConfig) → Follows config.meshname.enable (init ops config)
  unfolding init is_started
  init-Follows config = record { keeps = refl; idle = λ h. lawful.new_idle config.meshname.listen }

  start_if-Follows :
      (enable : Bool) (m : MeshnameServer S)
      → Follows enable m
      → Follows enable (start_if ops enable m).0
  unfolding start_if
  start_if-Follows true m f = record { keeps = f.keeps; idle = λ h. absurd cc }
  start_if-Follows false m f = f

  call-Follows :
      (enable : Bool) (m : MeshnameServer S) (c : Call)
      → Follows enable m
      → Follows enable (call ops m c)
  unfolding start stop is_started
  call-Follows enable m start_called f =
      subst (λ b. Follows enable (start_if ops b m).0) (sym f.keeps) (start_if-Follows enable m f)
  call-Follows enable m stop_called f = record {
    keeps = f.keeps;
    idle = λ h. lawful.stop_stops m.server;
  }

  calls-Follows :
      (enable : Bool) (m : MeshnameServer S) (cs : List Call)
      → Follows enable m
      → Follows enable (calls ops m cs)
  calls-Follows enable m [] f = f
  calls-Follows enable m (c ∷ cs) f =
      calls-Follows enable (call ops m c) cs (call-Follows enable m c f)

  start_if-calls :
      (enable : Bool) (m : MeshnameServer S)
      → Follows enable m
      → (start_if ops enable m).1 ≡ true
      → is_started ops (start_if ops enable m).0 ≡ enable
  unfolding start_if is_started
  start_if-calls true m f ok = lawful.start_starts m.server ok
  start_if-calls false m f ok = f.idle refl

  -- After `Init` and any calls of `Start` and `Stop`, with errors or not: once `Start` returns no
  -- error, the module is started exactly when the configuration enables it, and once `Stop` returns
  -- it is not.
  pub calls-init_enable :
      (config : PopuraConfig) (cs : List Call)
      → (start ops (calls ops (init ops config) cs)).1 ≡ true
      → (is_started ops (start ops (calls ops (init ops config) cs)).0 ≡ config.meshname.enable)
        × (is_started ops (stop ops (calls ops (init ops config) cs)) ≡ false)
  unfolding start stop is_started
  calls-init_enable config cs ok =
      let enable = config.meshname.enable in
      let m = calls ops (init ops config) cs in
      let f = calls-Follows enable (init ops config) cs (init-Follows config) in
      (rw f.keeps (start_if-calls enable m f (rw f.keeps at ok)), lawful.stop_stops m.server)
