-- ===== src/Lib.antt =====
-- The Popura network client: an Yggdrasil node (cmd/yggdrasil) with two modules of its own,
-- automatic peering (src/autopeering) and the meshname resolver (src/meshname), and tools beside
-- it: yggdrasilctl sends a request to a running node and prints the answer (cmd/yggdrasilctl),
-- genkeys looks for better keys (cmd/genkeys), contrib/ansible makes keys for many hosts,
-- contrib/mobile wraps the node for phones, and two C programs in contrib/yggdrasil-brute-simple
-- look for keys on libsodium.
--
-- Which file models what; a function keeps its name in the source, spelled with underscores.
-- - Base and its children: Boolean tests on numbers, lists, Go's panics as values (Base/Panic),
--   strings as bytes with the parts of the package strings that the program uses (Base/Text),
--   rearrangements, and the highest of many elements (Base/Ranked).
-- - Config: src/popura/config.go.
-- - Genkeys: cmd/genkeys/main.go. A state is main's `currentBest` and its buffered channel, and
--   each worker's best key; a step is one goroutine's, `run` is any interleaving of them.
-- - Ansible: contrib/ansible/genkeys.go. The two loops of `main` with the generator as a list of
--   results, and the moves of `sortKeySetArray` and `bubbleUpTo`. Ansible/Files: the files of the
--   hosts, as requests to the file system; negative flags are left out.
-- - Autopeering: src/autopeering/main.go and peers.go, tests of peers over a network that is a
--   parameter. Autopeering/Module: rounds of `checkPeerLoop` in module.go, each with what it reads
--   from outside. Autopeering/Lifecycle: `Init`, `Start`, `Stop` and the timers of the loop.
-- - Keys: src/popura/utils.go, with encoding/hex in Keys/Hex, which cmd/genkeys and cmd/yggdrasil
--   use.
-- - Meshname: src/meshname/module.go, over a server that is a record of its calls.
-- - Module: src/popura/module.go, the interface of a Popura module as a record, which the node
--   takes and Meshname and Autopeering/Lifecycle fill.
-- - Flags: the package flag, as the two commands use it; it stands for `flag.Parse` in them.
-- - Bom: the byte order mark of a configuration file, for both commands.
-- - Yggdrasil: `run` and `main` of cmd/yggdrasil/main.go. Yggdrasil/Trace has the events of a run,
--   in order, and whether it panics, where the event of a part that is set up says that its `New`
--   or `Start` returned without an error, with a part or with nil; Yggdrasil/Args the flags and
--   `getArgs`, Yggdrasil/Config the configuration and `World`, what stands outside;
--   Yggdrasil/LogLevel is `setLogLevel`. `run` gets past its wait at the first signal that ends the
--   context, and without one it never returns.
-- - Yggdrasilctl: cmd/yggdrasilctl/cmd_line_env.go, and `run` and `main` of main.go.
--   Yggdrasilctl/Answers and Yggdrasilctl/Output: what is printed of the answer, and the exit code.
-- - Brute: contrib/yggdrasil-brute-simple/util.c; the loops that the mains of both programs have
--   are Brute/Loop, and the programs Brute/Ed25519 and Brute/Curve25519, in each of which a record
--   has the variables of main. Accesses to arrays are checked, and one out of bounds is a panic.
-- - Mobile: contrib/mobile/mobile.go, the object with its methods, and the loggers of the
--   platforms.
--
-- What stands outside the repository is a parameter: the network (`Dial`), the order in which
-- goroutines send (`choose`), `sort.Slice` (it takes the comparator of `GetClosestPeers`),
-- `rand.Perm`, `url.Parse`, the generator of keys, the clock, the packages for JSON, HJSON, UTF-16
-- and addresses, libsodium, what the Yggdrasil packages return, and what happens to the node and
-- its modules while it waits. Where a theorem relies on one, its hypothesis says so.
--
-- Bounds: durations and times are nanoseconds, and `time.Since` stops at the largest
-- `time.Duration`. A receive takes an index from the scheduler below the number of waiting senders.
-- Loops without an end in the source (`for` in `doKeys`, the loop of timers) are runs over a list
-- of steps of any length. The digits of `%x` run on as many rounds as the number, which is enough:
-- each divides it by 16. A search of the C programs runs over a list of readings of the clock, one
-- behind each batch of 2 ^ 17 or 2 ^ 16 rounds; the counter of rounds has 32 bits, and the theorems
-- on the programs ask for fewer rounds.
--
-- Not modelled: the text of the help, and of the logs but for the three lines in which the node
-- tells its key, address and subnet; the progress bar of contrib/ansible, the Yggdrasil packages,
-- the server of the package meshname, what the C programs print to stderr and clear at their end,
-- scripts and packaging.
pub mod Base
pub mod Config
pub mod Keys
pub mod Bom
pub mod Flags
pub mod Genkeys
pub mod Ansible
pub mod Autopeering
pub mod Meshname
pub mod Module
pub mod Yggdrasil
pub mod Yggdrasilctl
pub mod Mobile
pub mod Brute
