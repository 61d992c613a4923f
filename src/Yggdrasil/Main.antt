-- ===== src/Yggdrasil/Main.antt =====
-- The process of the node, from its command line.
use popura.Base.{◌≡◌, ap, ◌∙◌}
use popura.Yggdrasil.Args.{YggArgs}
use popura.Yggdrasil.Args.CommandLine.{command_line, get_args-command_line}
use popura.Yggdrasil.Config.{World}
use popura.Yggdrasil.{ran, outcome, run, main}

-- For any values of the fourteen flags, the process started with each written as `-name=value` is
-- `run` on these values: no flag is refused, lost or mixed up with another.
pub main-command_line : (w : World) (args : YggArgs) → main w (command_line args) ≡ ran (run w args)
unfolding main
main-command_line w args =
    let (given, p, g) = get_args-command_line args in ap (outcome w) p ∙ ap (λ a. ran (run w a)) g
