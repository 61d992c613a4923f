-- ===== src/Meshname/Tests.antt =====
-- The meshname module over a server that is a Boolean.
use popura.Base.{Bool, true, false, ◌≡◌, refl, [], ◌∷◌}
use popura.Base.Text.{bytes}
use popura.Config.{PopuraConfig}
use popura.Meshname.{
  Server, IsServer, init, start, stop, is_started, start_called, stop_called, calls,
}
use popura.Meshname.Session.{calls-init_enable}

abbrev switch : Server Bool
switch = record {
  new = λ listen. false;
  start = λ s. (true, true);
  stop = λ s. false;
  is_started = λ s. s;
}

switch-IsServer : IsServer switch
switch-IsServer = record {
  new_idle = λ listen. refl;
  start_starts = λ s ok. refl;
  stop_stops = λ s. refl;
}

abbrev enabled : PopuraConfig
enabled = record {
  autopeering = record { enable = false };
  meshname = record { enable = true; listen = bytes "[::1]:53535" };
}

-- The module was started twice and stopped, before it is started again.
calls-init_enable_example :
    (is_started switch
        (start switch
          (calls switch (init switch enabled) (start_called ∷ start_called ∷ stop_called ∷ []))).0
      ≡ true)
    × (is_started switch (
          stop switch
            (calls switch (init switch enabled) (start_called ∷ start_called ∷ stop_called ∷ [])))
        ≡ false)
unfolding start stop init
calls-init_enable_example =
    calls-init_enable switch switch-IsServer enabled
      (start_called ∷ start_called ∷ stop_called ∷ []) refl
