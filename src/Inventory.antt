-- ===== src/Inventory.antt =====
-- src/inventory.cpp and include/ns/inventory.hpp: the inventory and its JSON text.
use nano_sensor.Base.{ℕ, Bool, true, false, List, [], ◌∷◌, ◌++◌, not, map}
use nano_sensor.Base.Int.{ℤ, pos, negsuc, is_negative}
use nano_sensor.Text.{Bytes, codes}
use nano_sensor.Json.{
  JsonWriter, json_writer, begin_object, begin_object_key, begin_array, end_object, end_array,
  field, field_bool, field_i64, field_null, value,
}
pub mod Text
mod Tests

pub record HostInfo : Type 0 where
  pub hostname : Bytes
  pub os_name : Bytes
  pub os_version : Bytes
  pub kernel : Bytes
  pub arch : Bytes

pub record NetInterface : Type 0 where
  pub name : Bytes
  pub mac : Bytes
  pub addresses : List Bytes
  pub up : Bool
  pub loopback : Bool

pub record ListeningSocket : Type 0 where
  pub proto : Bytes
  pub local_addr : Bytes
  pub local_port : ℕ
  pub pid : ℤ
  pub process_name : Bytes
  pub world_reachable : Bool

pub record Process : Type 0 where
  pub pid : ℤ
  pub ppid : ℤ
  pub name : Bytes
  pub exe_path : Bytes
  pub user : Bytes

pub record Package : Type 0 where
  pub name : Bytes
  pub version : Bytes
  pub vendor : Bytes
  pub source : Bytes

pub record Inventory : Type 0 where
  pub agent_name : Bytes
  pub agent_version : Bytes
  pub agent_stage : Bytes
  pub platform : Bytes
  pub collected_at_unix_ms : ℤ
  pub collect_duration_ms : ℤ
  pub host : HostInfo
  pub interfaces : List NetInterface
  pub sockets : List ListeningSocket
  pub processes : List Process
  pub packages : List Package
  pub warnings : List Bytes

-- What a collector reports: whether the platform has it, and its warnings.
pub record Status : Type 0 where
  pub implemented : Bool
  pub warnings : List Bytes

-- The warnings of one collector, behind those that are there; `name` is platform::name().
unfoldable pub fold : Bytes → List Bytes → Bytes → Status → List Bytes
fold name into collector st = elim st.implemented [
  | false ↦ into ++ ((collector ++ (codes ": not implemented on " ++ (name ++ codes " yet"))) ∷ [])
  | true ↦ into ++ map (λ w. collector ++ (codes ": " ++ w)) st.warnings
]

-- Each loop of the report writes one element for each entry.
abbrev pub each {ℓ} :
    {A : Type ℓ} → (A → JsonWriter → JsonWriter) → List A → JsonWriter → JsonWriter
each write [] w = w
each write (a ∷ rest) w = each write rest (write a w)

unfoldable pub write_agent : Inventory → JsonWriter → JsonWriter
write_agent inv w = end_object (
    field (codes "platform") inv.platform (
      field (codes "stage") inv.agent_stage (
        field (codes "version") inv.agent_version
          (field (codes "name") inv.agent_name (begin_object_key (codes "agent") w)))))

unfoldable pub write_host : HostInfo → JsonWriter → JsonWriter
write_host host w = end_object (
    field (codes "arch") host.arch (
      field (codes "kernel") host.kernel (
        field (codes "os_version") host.os_version (
          field (codes "os_name") host.os_name
            (field (codes "hostname") host.hostname (begin_object_key (codes "host") w))))))

unfoldable pub write_interface : NetInterface → JsonWriter → JsonWriter
write_interface i w = end_object (
    field_bool (codes "loopback") i.loopback (
      field_bool (codes "up") i.up (
        end_array (
          each value i.addresses (
            begin_array (codes "addresses")
              (field (codes "mac") i.mac (field (codes "name") i.name (begin_object w))))))))

abbrev pub write_pid : ℤ → JsonWriter → JsonWriter
write_pid (pos n) w = field_i64 (codes "pid") (pos n) w
write_pid (negsuc n) w = field_null (codes "pid") w

unfoldable pub write_socket : ListeningSocket → JsonWriter → JsonWriter
write_socket s w = end_object (
    field_bool (codes "world_reachable") s.world_reachable (
      field (codes "process_name") s.process_name (
        write_pid s.pid (
          field_i64 (codes "local_port") (pos s.local_port) (
            field (codes "local_addr") s.local_addr
              (field (codes "proto") s.proto (begin_object w)))))))

unfoldable pub write_process : Process → JsonWriter → JsonWriter
write_process p w = end_object (
    field (codes "user") p.user (
      field (codes "exe_path") p.exe_path (
        field (codes "name") p.name
          (field_i64 (codes "ppid") p.ppid (field_i64 (codes "pid") p.pid (begin_object w))))))

unfoldable pub write_package : Package → JsonWriter → JsonWriter
write_package p w = end_object (
    field (codes "source") p.source (
      field (codes "vendor") p.vendor
        (field (codes "version") p.version (field (codes "name") p.name (begin_object w)))))

-- begin_array, a loop, end_array.
abbrev pub write_array {ℓ} :
    {A : Type ℓ} → Bytes → (A → JsonWriter → JsonWriter) → List A → JsonWriter → JsonWriter
write_array key write items w = end_array (each write items (begin_array key w))

-- The calls between the first begin_object and the last end_object.
unfoldable pub write_inventory : Inventory → JsonWriter → JsonWriter
write_inventory inv w0 =
    let w1 = write_agent inv w0 in
    let w2 = field_i64 (codes "collected_at_unix_ms") inv.collected_at_unix_ms w1 in
    let w3 = field_i64 (codes "collect_duration_ms") inv.collect_duration_ms w2 in
    let w4 = write_host inv.host w3 in
    let w5 = write_array (codes "interfaces") write_interface inv.interfaces w4 in
    let w6 = write_array (codes "listening_sockets") write_socket inv.sockets w5 in
    let w7 = write_array (codes "processes") write_process inv.processes w6 in
    let w8 = write_array (codes "packages") write_package inv.packages w7 in
    write_array (codes "warnings") value inv.warnings w8

unfoldable pub to_json : Inventory → Bool → Bytes
to_json inv pretty = (end_object (write_inventory inv (begin_object (json_writer pretty)))).out

abbrev pub agent_name : Bytes
agent_name = codes "nano-sensor"

abbrev pub agent_version : Bytes
agent_version = codes "0.1.0"

abbrev pub agent_stage : Bytes
agent_stage = codes "stage4-service"

-- What the platform reports in one collection: each collector's status and data, the clock, and how
-- long it took.
pub record Collected : Type 0 where
  pub name : Bytes
  pub now : ℤ
  pub took : ℤ
  pub host : Status × HostInfo
  pub interfaces : Status × List NetInterface
  pub sockets : Status × List ListeningSocket
  pub processes : Status × List Process
  pub packages : Status × List Package

unfoldable pub collect_inventory : Collected → Inventory
collect_inventory c =
    let w1 = fold c.name [] (codes "host") c.host.0 in
    let w2 = fold c.name w1 (codes "interfaces") c.interfaces.0 in
    let w3 = fold c.name w2 (codes "sockets") c.sockets.0 in
    let w4 = fold c.name w3 (codes "processes") c.processes.0 in
    let w5 = fold c.name w4 (codes "packages") c.packages.0 in
    record {
      agent_name = agent_name;
      agent_version = agent_version;
      agent_stage = agent_stage;
      platform = c.name;
      collected_at_unix_ms = c.now;
      collect_duration_ms = c.took;
      host = c.host.1;
      interfaces = c.interfaces.1;
      sockets = c.sockets.1;
      processes = c.processes.1;
      packages = c.packages.1;
      warnings = w5;
    }
