-- ===== src/RootCmd/Commands.antt =====
-- The commands under the root command: `initRootCmd`, `genesisCommand`, `queryCommand` and
-- `txCommand` of cmd/echofid/cmd/command.go. A command of another repository is the call that
-- makes it.
use echofi.Prelude.{ℕ, Bool, true, List, [], ◌∷◌, ◌++◌, String, Option, none, some, if◌then◌else◌}
use echofi.RootCmd.SdkConfig.{SdkApi}

-- The fields of `cobra.Command` that the code sets, the calls that make its children, and the
-- flags of it and its children.
pub record ParentCommand : Type 0 where
  pub use_line : String
  pub aliases : List String
  pub short : String
  pub disable_flag_parsing : Bool
  pub suggestions_minimum_distance : ℕ
  pub run : String
  pub children : List String
  pub persistent_flags : List String

pub data Command : Type 0 where
  call : String → Command
  parent : ParentCommand → Command
  genesis : List String → Command

pub query_command : ParentCommand
query_command = record {
  use_line = "query";
  aliases = "q" ∷ [];
  short = "Querying subcommands";
  disable_flag_parsing = true;
  suggestions_minimum_distance = 2;
  run = "client.ValidateCmd";
  children =
      "rpc.ValidatorCommand" ∷ "server.QueryBlocksCmd" ∷ "server.QueryBlockCmd"
      ∷ "server.QueryBlockResultsCmd" ∷ "authcmd.QueryTxsByEventsCmd" ∷ "authcmd.QueryTxCmd" ∷ [];
  persistent_flags = "flags.FlagChainID" ∷ [];
}

-- `module_commands` are those that the basic manager adds.
pub tx_command : List String → ParentCommand
tx_command module_commands = record {
  use_line = "tx";
  aliases = [];
  short = "Transactions subcommands";
  disable_flag_parsing = true;
  suggestions_minimum_distance = 2;
  run = "client.ValidateCmd";
  children =
      ("authcmd.GetSignCommand" ∷ "authcmd.GetSignBatchCommand" ∷ "authcmd.GetMultiSignCommand"
        ∷ "authcmd.GetMultiSignBatchCmd" ∷ "authcmd.GetValidateSignaturesCommand"
        ∷ "flags.LineBreak" ∷ "authcmd.GetBroadcastCommand" ∷ "authcmd.GetEncodeCommand"
        ∷ "authcmd.GetDecodeCommand" ∷ [])
      ++ module_commands;
  persistent_flags = "flags.FlagChainID" ∷ [];
}

-- The children of `GenesisCoreCommand`, and the loop over the commands that are passed.
pub genesis_command : List String → List String → List String
genesis_command cmd [] = cmd
genesis_command cmd (sub_cmd ∷ cmds) = genesis_command (cmd ++ (sub_cmd ∷ [])) cmds

-- What the SDK, the EVM server and the modules add.
pub record Added : Type 0 where
  pub server_commands : List Command
  pub evm_server_commands : List Command
  pub genesis_core_commands : List String
  pub module_tx_commands : List String
  pub add_tx_flags_ok : Bool

-- The children of the root command, in their order.
pub root_children : Added → List Command
unfolding query_command tx_command genesis_command
root_children added =
    (call "genutilcli.InitCmd"
      ∷ call "tmcli.NewCompletionCmd"
      ∷ call "confixcmd.ConfigCommand"
      ∷ call "pruning.Cmd"
      ∷ call "snapshot.Cmd"
      ∷ [])
    ++ (added.server_commands
        ++ (added.evm_server_commands
            ++ (call "server.StatusCommand"
                ∷ genesis (genesis_command added.genesis_core_commands [])
                ∷ parent query_command
                ∷ parent (tx_command added.module_tx_commands)
                ∷ call "evmcmd.KeyCommands"
                ∷ call "rosettaCmd.RosettaCommand"
                ∷ [])))

-- `initRootCmd`: the configuration it leaves, and the children. `none` is its panic.
unfoldable pub init_root_cmd :
    (api : SdkApi) → Added → api.Config → Option (api.Config × List Command)
unfolding root_children
init_root_cmd api added c =
    if added.add_tx_flags_ok then some (api.seal c, root_children added) else none
