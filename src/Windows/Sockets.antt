-- ===== src/Windows/Sockets.antt =====
-- collect_listening_sockets of src/platform/platform_windows.cpp. inet_ntop is an argument.
use nano_sensor.Base.{
  ℕ, ◌+◌, ◌*◌, ◌/◌, ◌%◌, ◌^◌, ◌<◌, ◌≡◌, true, Option, none, some, List, [], ◌∷◌, ◌++◌, ◌==◌,
  if◌then◌else◌, arith,
}
use nano_sensor.Base.Int.{pos}
use nano_sensor.Text.{Bytes, codes}
use nano_sensor.Inventory.{Status, ListeningSocket}
use nano_sensor.Linux.Sockets.{is_wildcard, sort_sockets}
use nano_sensor.Windows.Processes.{Snapshot, take_process_snapshot}

-- ntohs on the low 16 bits.
unfoldable pub port_from_dword : ℕ → ℕ
port_from_dword p = let low = p % 2 ^ 16 in low % 2 ^ 8 * 2 ^ 8 + low / 2 ^ 8

-- A row of a table: the bytes of the address, the port in network order, and the owner.
pub record Row : Type 0 where
  pub local_addr : Bytes
  pub local_port : ℕ
  pub owning_pid : ℕ

abbrev pub name_of : ℕ → List (ℕ × Bytes) → Bytes
name_of pid [] = []
name_of pid ((p, name) ∷ rest) = let later = name_of pid rest in if pid == p then name else later

unfoldable pub resolve : List (ℕ × Bytes) → ℕ → ListeningSocket → ListeningSocket
resolve names pid s = record s { pid = pos pid; process_name = name_of pid names }

unfoldable pub socket_of : (Bytes → Bytes) → Bytes → List (ℕ × Bytes) → Row → ListeningSocket
socket_of print proto names r =
    let addr = print r.local_addr in
    resolve names r.owning_pid (record {
      proto = proto;
      local_addr = addr;
      local_port = port_from_dword r.local_port;
      pid = pos 0;
      process_name = [];
      world_reachable = is_wildcard addr;
    })

unfoldable pub socket_loop :
    (Bytes → Bytes) → Bytes → List (ℕ × Bytes) → List Row → List ListeningSocket
socket_loop print proto names [] = []
socket_loop print proto names (r ∷ rest) =
    socket_of print proto names r ∷ socket_loop print proto names rest

-- Whether GetExtendedTcpTable or GetExtendedUdpTable first asks for a buffer, and the rows that it
-- then writes.
pub data Fetch : Type 0 where
  no_size : Fetch
  second_failed : Fetch
  rows : List Row → Fetch

abbrev pub table_of :
    (Bytes → Bytes) → Bytes → Bytes → List (ℕ × Bytes) → Fetch → List Bytes × List ListeningSocket
table_of print api proto names no_size = ((api ++ codes " failed") ∷ [], [])
table_of print api proto names second_failed = ((api ++ codes " failed") ∷ [], [])
table_of print api proto names (rows rs) = ([], socket_loop print proto names rs)

abbrev pub snapshot_warning : Option Bytes → List Bytes
snapshot_warning none = []
snapshot_warning (some err) =
    (codes "process names unavailable (" ++ (err ++ codes "); pids reported unresolved")) ∷ []

-- The tables of tcp and udp over IPv4 and IPv6.
pub record Tables : Type 0 where
  pub tcp : Fetch
  pub tcp6 : Fetch
  pub udp : Fetch
  pub udp6 : Fetch

unfoldable pub collect_listening_sockets :
    (List ℕ → Bytes) → (Bytes → Bytes) → Snapshot → Tables → Status × List ListeningSocket
collect_listening_sockets utf8_from_wide print s t =
    let (err, snap) = take_process_snapshot utf8_from_wide s in
    let names = snap.names in
    let (w1, s1) =
      table_of print (codes "GetExtendedTcpTable(AF_INET)") (codes "tcp") names t.tcp in
    let (w2, s2) =
      table_of print (codes "GetExtendedTcpTable(AF_INET6)") (codes "tcp6") names t.tcp6 in
    let (w3, s3) =
      table_of print (codes "GetExtendedUdpTable(AF_INET)") (codes "udp") names t.udp in
    let (w4, s4) =
      table_of print (codes "GetExtendedUdpTable(AF_INET6)") (codes "udp6") names t.udp6 in
    (
      record { implemented = true; warnings = snapshot_warning err ++ (w1 ++ (w2 ++ (w3 ++ w4))) },
      sort_sockets (s1 ++ (s2 ++ (s3 ++ s4))),
    )

-- The two bytes of a port in network order, whatever stands above them in the word.
pub port_from_dword-network :
    (high low rest : ℕ)
    → high < 2 ^ 8
    → low < 2 ^ 8
    → port_from_dword (high + low * 2 ^ 8 + rest * 2 ^ 16) ≡ high * 2 ^ 8 + low
unfolding port_from_dword
port_from_dword-network high low rest h l = omega arith
