-- ===== src/DeviceInfo.antt =====
-- include/device_info.h and src/device_info.cpp.
pub mod Names
use adb_client.Base.{ℕ, Bytes, codes, ℤ}

pub data ConnectionState : Type 0 where
  any connecting authorizing unauthorized no_perm detached offline : ConnectionState
  bootloader device host recovery sideload rescue : ConnectionState

pub data ConnectionType : Type 0 where
  unknown usb wifi_socket : ConnectionType

-- `negotiated_speed` and `max_speed` have no initialiser, and nothing reads or writes them.
pub record DeviceInfo : Type 0 where
  pub serial : Bytes
  pub state : Bytes
  pub bus_address : Bytes
  pub product : Bytes
  pub model : Bytes
  pub device : Bytes
  pub connection_type : ConnectionType
  pub transport_id : ℤ

unfoldable pub state_to_string : ConnectionState → Bytes
state_to_string offline = codes "offline"
state_to_string bootloader = codes "bootloader"
state_to_string device = codes "device"
state_to_string host = codes "host"
state_to_string recovery = codes "recovery"
state_to_string rescue = codes "rescue"
state_to_string no_perm = codes "no permissions"
state_to_string sideload = codes "sideload"
state_to_string unauthorized = codes "unauthorized"
state_to_string authorizing = codes "authorizing"
state_to_string connecting = codes "connecting"
state_to_string _ = codes "unknown"
