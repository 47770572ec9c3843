-- ===== src/Media/Inventory.antt =====
-- crates/spike-media/src/capability.rs: the inventory that FFmpeg's own listings give. An exit code
-- is the 32 bits of the `i32`; the array `seen`, indexed by the command, is a function of it.
pub mod Collected
use ovayra.Prelude.{
  ℕ, ◌*◌, Bool, false, not, ◌||◌, Option, none, some, List, [], ◌∷◌, ◌==◌, Result, ok, ◌>>=◌, ◌>>◌,
  guard, any, split_whitespace, Text, bytes, text_eq,
}
use ovayra.Media.Bounded.{cut_text}

pub data InventoryCommand : Type 0 where
  version_command buildconf_command hwaccels_command decoders_command encoders_command
        filters_command :
      InventoryCommand

-- `InventoryCommand::ALL`
abbrev pub all_commands : List InventoryCommand
all_commands =
    version_command ∷ buildconf_command ∷ hwaccels_command ∷ decoders_command ∷ encoders_command
    ∷ filters_command ∷ []

unfoldable pub command_args : InventoryCommand → Text
command_args version_command = bytes "-version"
command_args buildconf_command = bytes "-buildconf"
command_args hwaccels_command = bytes "-hwaccels"
command_args decoders_command = bytes "-decoders"
command_args encoders_command = bytes "-encoders"
command_args filters_command = bytes "-filters"

-- `command as usize`
unfoldable pub discriminant : InventoryCommand → ℕ
discriminant version_command = 0
discriminant buildconf_command = 1
discriminant hwaccels_command = 2
discriminant decoders_command = 3
discriminant encoders_command = 4
discriminant filters_command = 5

unfoldable pub same_command : InventoryCommand → InventoryCommand → Bool
unfolding discriminant
same_command a b = discriminant a == discriminant b

pub record InventoryOutput : Type 0 where
  pub command : InventoryCommand
  pub exit_code : Option ℕ
  pub output : Text

abbrev pub max_inventory_output_bytes : ℕ
max_inventory_output_bytes = 64 * 1024

-- `InventoryOutput::new`, `success` and `failed`
unfoldable pub new_output : InventoryCommand → Option ℕ → Text → InventoryOutput
new_output command exit_code output = record {
  command = command;
  exit_code = exit_code;
  output = cut_text max_inventory_output_bytes output;
}

unfoldable pub success : InventoryCommand → Text → InventoryOutput
unfolding new_output
success command output = new_output command (some 0) output

unfoldable pub failed_output : InventoryCommand → Text → InventoryOutput
unfolding new_output
failed_output command output = new_output command (some 1) output

pub record Inventory : Type 0 where
  pub version : Text
  pub buildconf : Text
  pub hwaccels : Text
  pub decoders : Text
  pub encoders : Text
  pub filters : Text

-- `Inventory::default`
abbrev pub empty_inventory : Inventory
empty_inventory = record {
  version = [];
  buildconf = [];
  hwaccels = [];
  decoders = [];
  encoders = [];
  filters = [];
}

pub data InventoryError : Type 0 where
  missing_command failed_command duplicate_command : InventoryCommand → InventoryError

abbrev pub Seen : Type 0
Seen = InventoryCommand → Bool

abbrev pub none_seen : Seen
none_seen _ = false

-- `seen[index] = true`
abbrev pub mark : InventoryCommand → Seen → Seen
mark a seen b = same_command a b || seen b

-- the `match output.command`
unfoldable pub store : InventoryCommand → Text → Inventory → Inventory
store version_command t i = record i { version = t }
store buildconf_command t i = record i { buildconf = t }
store hwaccels_command t i = record i { hwaccels = t }
store decoders_command t i = record i { decoders = t }
store encoders_command t i = record i { encoders = t }
store filters_command t i = record i { filters = t }

unfoldable pub exited_zero : Option ℕ → Bool
exited_zero none = false
exited_zero (some code) = code == 0

-- `for output in outputs`
unfoldable pub collect :
    List InventoryOutput → Seen → Inventory → Result InventoryError (Seen × Inventory)
unfolding exited_zero store
collect [] seen inventory = ok (seen, inventory)
collect (o ∷ outputs) seen inventory = do
  guard (not (seen o.command)) (duplicate_command o.command)
  guard (exited_zero o.exit_code) (failed_command o.command)
  collect outputs (mark o.command seen) (store o.command o.output inventory)

-- `for command in InventoryCommand::ALL`
unfoldable pub require_all : List InventoryCommand → Seen → Result InventoryError (Unit {0})
require_all [] seen = ok tt
require_all (command ∷ commands) seen = do
  guard (seen command) (missing_command command)
  require_all commands seen

unfoldable pub from_command_outputs : List InventoryOutput → Result InventoryError Inventory
unfolding collect require_all
from_command_outputs outputs = do
  (seen, inventory) ← collect outputs none_seen empty_inventory
  require_all all_commands seen
  ok inventory

pub data InventoryKind : Type 0 where
  hwaccel decoder encoder filter : InventoryKind

-- The listing that a kind of component is looked up in.
unfoldable pub listing : InventoryKind → Inventory → Text
listing hwaccel i = i.hwaccels
listing decoder i = i.decoders
listing encoder i = i.encoders
listing filter i = i.filters

unfoldable pub has : Inventory → InventoryKind → Text → Bool
unfolding listing
has i kind component = any (λ name. text_eq name component) (split_whitespace (listing kind i))
