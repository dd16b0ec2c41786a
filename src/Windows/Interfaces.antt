-- ===== src/Windows/Interfaces.antt =====
-- collect_interfaces of src/platform/platform_windows.cpp. inet_ntop is an argument.
use nano_sensor.Base.{ℕ, zero, suc, Bool, true, List, [], ◌∷◌, ◌++◌, ◌==◌, if◌then◌else◌, length}
use nano_sensor.Base.Int.{pos}
use nano_sensor.Text.{Bytes, codes}
use nano_sensor.Json.{print_i64}
use nano_sensor.Cve.Names.{is_empty}
use nano_sensor.Inventory.{Status, NetInterface}
use nano_sensor.Linux.Sockets.{Printer}
use nano_sensor.Linux.Interfaces.{mac_text}
use nano_sensor.Windows.Registry.{text_or}

pub data SocketAddress : Type 0 where
  inet inet6 : Bytes → SocketAddress
  other_family : SocketAddress

-- An adapter: the units of its name, its physical address, and its addresses with their prefixes.
pub record Adapter : Type 0 where
  pub friendly_name : List ℕ
  pub oper_status_up : Bool
  pub software_loopback : Bool
  pub physical_address : Bytes
  pub unicast : List (SocketAddress × ℕ)

-- What a call of GetAdaptersAddresses returns.
pub data Adapters : Type 0 where
  buffer_overflow : Adapters
  other_error : ℕ → Adapters
  adapters : List Adapter → Adapters

-- A call for each attempt, up to the first that does not ask for a larger buffer.
unfoldable pub attempt_loop : ℕ → ℕ → (ℕ → Adapters) → Adapters
attempt_loop zero attempt calls = buffer_overflow
attempt_loop (suc left) attempt calls = elim (calls attempt) [
  | buffer_overflow ↦ attempt_loop left (suc attempt) calls
  | other_error rc ↦ other_error rc
  | adapters list ↦ adapters list
]

unfoldable pub sockaddr_to_string : Printer → SocketAddress → Bytes
sockaddr_to_string print (inet bytes) = text_or [] (print.inet bytes)
sockaddr_to_string print (inet6 bytes) = text_or [] (print.inet6 bytes)
sockaddr_to_string print other_family = []

unfoldable pub unicast_loop : Printer → List (SocketAddress × ℕ) → List Bytes
unicast_loop print [] = []
unicast_loop print ((address, prefix) ∷ rest) =
    let later = unicast_loop print rest in
    let s = sockaddr_to_string print address in
    if is_empty s then later else (s ++ (codes "/" ++ print_i64 (pos prefix))) ∷ later

unfoldable pub interface_of : (List ℕ → Bytes) → Printer → Adapter → NetInterface
interface_of utf8_from_wide print a = record {
  name = utf8_from_wide a.friendly_name;
  mac = if length a.physical_address == 6 then mac_text a.physical_address else [];
  addresses = unicast_loop print a.unicast;
  up = a.oper_status_up;
  loopback = a.software_loopback;
}

unfoldable pub adapter_loop : (List ℕ → Bytes) → Printer → List Adapter → List NetInterface
adapter_loop utf8_from_wide print [] = []
adapter_loop utf8_from_wide print (a ∷ rest) =
    interface_of utf8_from_wide print a ∷ adapter_loop utf8_from_wide print rest

abbrev pub interface_failure : ℕ → Status × List NetInterface
interface_failure rc = (
  record {
    implemented = true;
    warnings = (codes "GetAdaptersAddresses failed, status " ++ print_i64 (pos rc)) ∷ [];
  },
  [],
)

-- ERROR_BUFFER_OVERFLOW is 111.
abbrev pub interfaces_of : (List ℕ → Bytes) → Printer → Adapters → Status × List NetInterface
interfaces_of utf8_from_wide print buffer_overflow = interface_failure 111
interfaces_of utf8_from_wide print (other_error rc) = interface_failure rc
interfaces_of utf8_from_wide print (adapters list) =
    (record { implemented = true; warnings = [] }, adapter_loop utf8_from_wide print list)

unfoldable pub collect_interfaces :
    (List ℕ → Bytes) → Printer → (ℕ → Adapters) → Status × List NetInterface
collect_interfaces utf8_from_wide print calls =
    interfaces_of utf8_from_wide print (attempt_loop 4 0 calls)
