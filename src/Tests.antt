-- ===== src/Tests.antt =====
-- Concrete inputs for the theorems on the code.
mod Exchanges
mod Threads
mod Hosts
mod Locals
mod Mains
mod Texts
mod Devices
use adb_client.Base.{◌≡◌, refl, Bool, true, not, ◌&&◌, [], ◌∷◌, ◌==◌, Bytes, codes, HasNoNul, arith}
use adb_client.HostCommand.{HostCommand}
use adb_client.HostSerialCommand.{HostSerialCommand}
use adb_client.LocalCommand.Handlers.{LocalCommand}
use adb_client.Main.{new_command}

abbrev pub new_host : HostCommand
new_host = record { adb = new_command; tracked_device = [] }

abbrev pub new_serial : HostSerialCommand
new_serial = record { adb = new_command }

abbrev pub new_local : LocalCommand
new_local = record { adb = new_command; serial = []; shell_data = codes "old" }

abbrev has_no_nul : Bytes → Bool
has_no_nul [] = true
has_no_nul (c ∷ s) = not (c == 0) && has_no_nul s

pub has_no_nul-HasNoNul : (s : Bytes) → has_no_nul s ≡ true → HasNoNul s
has_no_nul-HasNoNul [] h = tt
has_no_nul-HasNoNul (c ∷ s) h = ground (arith, has_no_nul-HasNoNul s)
