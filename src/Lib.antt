-- ===== src/Lib.antt =====
-- A model of echofi, the node application of a Cosmos SDK chain with an EVM, and what holds of it.
--
-- The application is the wiring of modules that other repositories implement. Its own code is the
-- check of transactions (app/ante), the one-time EVM configuration (app/evm_config.go), the export
-- of the state (app/export.go), the construction of the keepers (app/keepers), the lists of modules
-- (app/module.go), the rest of the application object (app/app.go), the commands that start it
-- (cmd/echofid) and the helpers of the tests in containers (interchaintest). `NewEchofiApp` sets the
-- configuration, builds the keepers from the address maps, orders the modules, and installs the ante
-- handler; the root command builds one application for its codecs and another one that runs, and the
-- export runs on a built application.
--
-- Prelude: the library's names, Boolean tests, lists. Packages: the packages that app/module.go and
--   app/keepers name, each standing for its module name and its store key.
-- Ante: app/ante. Ante/Authz is `checkDisabledMsgs` of authz.go: a message is a tree, in which the
--   messages inside a `MsgExec` are what `GetMessages` gives, or its error. The level is the
--   variable `nestedLvl` of the loop, so it grows along a list too. Ante/Handlers has handlers and
--   decorators, and the law of `sdk.ChainAnteDecorators`. Ante/Options is handler_options.go, and
--   Ante/Router is `NewAnteHandler` of ante.go. The decorators of other repositories are named, with
--   what they are built from, and their behaviour is a parameter. The checks recurse on the tree of
--   the messages, so there is no fuel.
-- EvmConfig: app/evm_config.go. The package variable `sealed` and the registry of denominations are
--   state that the functions pass on; the registry is a parameter with laws (EvmConfig/Sealing).
-- Export: app/export.go. Export/Chain has the tables that the preparation for height zero rewrites,
--   the state of the bank and the distribution module as an abstract part, and the calls of the
--   keepers. Export/Tables are the loops over a store, Export/ZeroHeight is
--   `prepForZeroHeightGenesis`, Export/Ranking the sort and the cut of the validators, and
--   Export/AppState is `ExportAppStateAndValidators`. An error that the code turns into a panic is
--   `panic`. Loops are over lists that are read beforehand, as the iterators of the code read them.
-- Modules: app/module.go: the modules by name, and the orders in which the manager runs them; in
--   Modules/Constructors with the arguments of their constructors, over the values of Wiring.
--   The manager's own assertions on an order, that no module is left out, are not steps of it.
-- Wiring: app/keepers. `NewAppKeeper` is a sequence of steps on a list of calls. A value is a copy of
--   a variable after its n-th change, a pointer to it, nil, a store key, a subspace, or the text of
--   an expression without any of these; a variable that is read, pointed to or called before its
--   first change is told apart. Wiring/Routes follows the stacks from the routers on. Constructors of other repositories are names. What is read
--   and when, which key is looked up and whether it is there, and which pointer is followed are
--   those of the code. The type assertion on the ICA controller stack is not a step.
-- Startup: `NewEchofiApp` of app/app.go as the sequence of its calls on the base app, which refuses
--   some calls once a version is loaded, with the configuration, the keepers and the options of the
--   other parts; and `newApp` and `appExport` of cmd/echofid/cmd/command.go, up to the export.
-- App: app/app.go: the address maps of the module accounts, `InitChainer`,
--   `SigVerificationGasConsumer`, `AutoCliOpts` (App/AutoCli) and the methods that read a field or
--   hand a call on (App/Object). The map of the manager's modules is a list, in any order.
-- RootCmd: cmd/echofid/cmd/cmd.go, cmd/echofid/main.go and the command tree of command.go. The
--   configuration of the SDK is a state that refuses its setters once it is sealed
--   (RootCmd/SdkConfig); a panic is `none`, and runs the deferred function where it is registered.
--   RootCmd/PreRun is what runs before each command, and RootCmd/Commands the tree.
-- Interchain: interchaintest, and `MakeEncodingConfig` of app/encoding.go. A helper is a run on the
--   containers that keeps the commands it has run and may be stopped; a command runs to its end in
--   one step. Interchain/Votes is the errgroup of `VoteOnProposalAllValidators` as a step relation:
--   any goroutine may be the next, and the transaction of a node is one step. Interchain/Numbers is
--   what the code uses of strconv, where 20 digits are fuel enough for 64 bits. Interchain/Gov is
--   TestGov behind its set-up, Interchain/StakingTest and Interchain/Transfer are the tests of
--   staking_test.go and ibc_transfer_test.go behind theirs. Interchain/Image is ci_integration.go, and Interchain/Setup and
--   Interchain/Encoding are setup.go. `json.Unmarshal` is a parameter, and
--   text is compared and not taken apart, but for numbers and the name of a branch.
--
-- Heights, gas and numbers of validators are natural numbers. The limit of exported validators is an
-- integer, since the code slices by it.
--
-- Not modelled: the addresses of app/params, of which only that of governance is read, and Wiring
-- has it by its expression; the registration of the node, Tendermint and transaction services in app/app.go, single calls of the SDK; what the tests of
-- interchaintest call of the interchaintest library for their containers, wallets and relayer.
pub mod Ante
pub mod App
pub mod EvmConfig
pub mod Export
pub mod Interchain
pub mod Modules
pub mod Packages
pub mod Prelude
pub mod RootCmd
pub mod Startup
pub mod Wiring
