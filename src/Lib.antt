-- ===== src/Lib.antt =====
-- A verification library for the chain simulator: a Go program that runs a simulated MultiversX
-- chain behind the HTTP API of the proxy, with endpoints to make blocks, to set state and to move
-- epochs.
--
-- The parts, and how they interact. The endpoints (pkg/proxy/api) read a request through gin, call
-- the facade (pkg/facade) and answer; the facade calls the simulator of mx-chain-go and the
-- transactions handler of the proxy; beside the requests the blocks generator (pkg/process, made by
-- pkg/factory) asks the simulator for a block at every tick of a clock. The program
-- (cmd/chainsimulator) reads its flags and files, fetches the configurations (pkg/proxy/configs),
-- makes the chain and the generator, creates the proxy (pkg/proxy/creator), puts the endpoints on
-- its server, starts it, waits for a signal, and closes the generator, the simulator, the proxy and
-- the log file.
--
-- The files. `Common` has shared notation, integers and the outcome of a call: a value, an error, a
-- panic, or no return within the fuel, with the state passed along. `Go` has what is used of Go's
-- standard library (strings, strconv, encoding/hex, encoding/base64, encoding/pem, os) over byte
-- strings, and over a tree of files. `Dtos` has the types of pkg/dtos. `Config` is config: its
-- types, and in `Config.Overrides` the function ReadAll. `Facade` is pkg/facade: `Facade.Defs` has
-- a function for each method (GenerateBlocks is `generate_blocks`, and so on), `Facade.Keys` and
-- `Facade.Observers` the loops of AddValidatorKeys and GetObserversInfo, `Facade.New` the
-- constructor and the facade as the interface of the endpoints; the other modules below it are
-- named for what they prove. `Api` is pkg/proxy/api: `Api.Endpoints` has a function for each
-- handler, `Api.Routes` the registrations. `Process` is pkg/process, pkg/process/disabled and
-- pkg/factory: the goroutine, its ticker and the callers of Close are steps of a schedule.
-- `Configs` is pkg/proxy/configs and its folder git: `Configs.Tags` finds a version in the build
-- information, `Configs.Copy` copies a folder, `Configs.Fetcher` clones, checks out, copies and
-- removes, and `Configs.ProxyConfigs` makes the proxy's configuration and its wallet file.
-- `Startup` is cmd/chainsimulator: `Startup.Flags` has flags.go, and `Startup.OverrideFiles`,
-- `Startup.Logger`, `Startup.Fetch`, `Startup.Prepare` and `Startup.Chain` have main.go: the choice
-- of the override files, the logger, the fetching, the start up to its checks of the numbers of
-- validators, and from there to the blocks generator, with the proxy's port. `Creator` is
-- pkg/proxy/creator and pkg/proxy/interface.go: `Creator.Library` has what is called of
-- mx-chain-proxy-go, `Creator.Defs` has CreateProxy in the order of its calls and the proxy's
-- methods, and the modules beside them the workers that run and the port of the server. `Launch` is
-- the rest of main.go: `Launch.Defs` goes from the proxy's configurations to its start, and has the
-- whole of startChainSimulator up to the wait, `Launch.Shutdown` has the rest as a step relation
-- between the function, the generator's goroutine and requests, and `Launch.Main` has main; the
-- modules beside them are named for what they prove, of a start, of an end, or of a whole run.
-- `Testscommon` is testscommon: the mocks and stubs as the interfaces they stand for. `Tests` runs
-- the model.
--
-- What is a parameter. The simulator and its types, the transactions handler, gin with its context,
-- the response helpers of mx-chain-proxy-go, mx-chain-logger-go, the commands git and cp, the
-- reader of TOML files the components of mx-chain-proxy-go, and the context of urfave/cli are
-- records of operations or functions; what a theorem relies on is a record of laws or a hypothesis,
-- and `Tests` meets each. A Go map is the list of its entries in the order of one visit. A nil
-- interface or pointer is `none`. A path is the list of its names. In the tree of files there are
-- no links, a file has no mode, and a call fails only on a missing name or on a file where a
-- directory should be; a walk over a folder does not see what is made while it goes on.
--
-- Bounds and fuel. An `int` is an integer, and Atoi checks the range of 64 bits; conversions to 32
-- bits and the product of a block time wrap around as in Go. The loop of ForceChangeOfEpoch has no
-- bound in the source; it runs on fuel, and fuel for the epochs between the current one and the
-- target is enough, as `Facade.Epoch` proves. All other loops are over lists or a counter.
-- `strconv.Quote` is exact on ASCII.
--
-- Not modelled: what is written to a log, the texts of the flags' help, the IsInterfaceNil methods,
-- and the goroutines inside mx-chain-go and mx-chain-proxy-go, of which only what a proxy's workers
-- show is a parameter. A request that is served beside the program is a step of its own on the
-- state. Up to the wait for a signal startChainSimulator is one action: what the generator's
-- goroutine does in the meantime is not put between its calls.
pub mod Common
pub mod Go
pub mod Dtos
pub mod Config
pub mod Facade
pub mod Api
pub mod Process
pub mod Configs
pub mod Startup
pub mod Creator
pub mod Launch
pub mod Testscommon
pub mod Tests
