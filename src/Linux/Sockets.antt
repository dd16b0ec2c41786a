-- ===== src/Linux/Sockets.antt =====
-- The sockets of src/platform/platform_linux.cpp: the tables of /proc/net and the owners of inodes.
use nano_sensor.Base.{
  ℕ, zero, suc, ◌+◌, ◌^◌, ◌%◌, Bool, true, false, not, ◌&&◌, ◌||◌, Option, none, some, List, [],
  ◌∷◌, ◌++◌, ltb, ◌==◌, if◌then◌else◌, length, take, drop,
}
use nano_sensor.Base.Int.{ℤ, pos, negsuc}
use nano_sensor.Text.{Bytes, codes, bytes_eq, bytes_lt, starts_with, rfind}
use nano_sensor.Numbers.{atoi, strtoul_16}
use nano_sensor.Json.{print_i64}
use nano_sensor.Spool.Frame.{put_u32}
use nano_sensor.Spool.Opening.{strtoull}
use nano_sensor.Cve.Names.{trim, split_from}
use nano_sensor.Inventory.{Status, ListeningSocket}
use nano_sensor.Linux.Files.{is_number, words}

-- inet_ntop on the bytes of an address of either family; none where it fails.
pub record Printer : Type 0 where
  pub inet : Bytes → Option Bytes
  pub inet6 : Bytes → Option Bytes

-- A word of eight hexadecimal digits as the bytes that memcpy takes from it.
abbrev pub word_bytes : Bytes → Bytes
word_bytes hex = put_u32 (strtoul_16 hex % 2 ^ 32)

abbrev pub word_at : ℕ → Bytes → Bytes
word_at start hex = take 8 (drop start hex)

unfoldable pub parse_hex_addr : Printer → Bytes → Option Bytes
parse_hex_addr print hex =
    if length hex == 8
    then print.inet (word_bytes hex)
    else if length hex == 32
    then print.inet6 (
        word_bytes (word_at 0 hex)
        ++ (word_bytes (word_at 8 hex)
            ++ (word_bytes (word_at 16 hex) ++ word_bytes (word_at 24 hex))))
    else none

unfoldable pub is_wildcard : Bytes → Bool
is_wildcard addr = bytes_eq addr (codes "0.0.0.0") || bytes_eq addr (codes "::")

pub record RawSocket : Type 0 where
  pub proto : Bytes
  pub addr : Bytes
  pub port : ℕ
  pub inode : ℕ

-- The columns of a line that are read: the local address, the state and the inode.
abbrev pub columns : List Bytes → Option (Bytes × Bytes × Bytes)
columns (sl ∷ local ∷ rem ∷ st ∷ txrx ∷ uid ∷ timeout ∷ inode ∷ rest) = some (local, st, inode)
columns ws = none

abbrev pub socket_at : Printer → Bytes → Bytes → Bytes → Option ℕ → Option RawSocket
socket_at print proto local inode none = none
socket_at print proto local inode (some colon) = elim (parse_hex_addr print (take colon local)) [
  | none ↦ none
  | some addr ↦ some (record {
    proto = proto;
    addr = addr;
    port = strtoul_16 (drop (colon + 1) local) % 2 ^ 16;
    inode = strtoull inode;
  })
]

-- The socket of a line; none where the loop goes on to the next.
unfoldable pub socket_of_line : Printer → Bytes → Bool → Bytes → Option RawSocket
socket_of_line print proto tcp_only_listen line = elim (columns (words line)) [
  | none ↦ none
  | some (local, st, inode) ↦
      if tcp_only_listen && not (strtoul_16 st == 0x0A)
      then none
      else socket_at print proto local inode (rfind b':' local)
]

unfoldable pub socket_lines : Printer → Bytes → Bool → List Bytes → List RawSocket
socket_lines print proto tcp_only_listen [] = []
socket_lines print proto tcp_only_listen (line ∷ lines) =
    let rest = socket_lines print proto tcp_only_listen lines in
    elim (socket_of_line print proto tcp_only_listen line) [ none ↦ rest | some s ↦ s ∷ rest ]

-- The content of a table, or none if it does not open: the sockets behind the header line.
unfoldable pub parse_proc_net : Printer → Bytes → Bool → Option Bytes → Option (List RawSocket)
parse_proc_net print proto tcp_only_listen none = none
parse_proc_net print proto tcp_only_listen (some text) =
    some (socket_lines print proto tcp_only_listen (drop 1 (split_from 10 [] text)))

-- An entry of /proc: its name, and the names and link targets in its fd directory, or whether that was
-- denied.
pub data Fds : Type 0 where
  opened : List (Bytes × Option Bytes) → Fds
  closed : Bool → Fds

-- map.emplace, which keeps an entry that is there.
abbrev pub owner : ℕ → List (ℕ × ℤ) → Option ℤ
owner inode [] = none
owner inode ((i, pid) ∷ rest) =
    let later = owner inode rest in if inode == i then some pid else later

-- The inode of a link "socket:[12345]"; 0 for any other.
abbrev pub inode_of : Bytes × Option Bytes → ℕ
inode_of (name, none) = 0
inode_of (name, some target) =
    if starts_with (codes ".") name
    then 0
    else if starts_with (codes "socket:[") target
    then strtoull (drop 8 target)
    else 0

unfoldable pub fd_inodes : ℤ → List (Bytes × Option Bytes) → List (ℕ × ℤ)
fd_inodes pid [] = []
fd_inodes pid (fd ∷ fds) =
    let rest = fd_inodes pid fds in if inode_of fd == 0 then rest else (inode_of fd, pid) ∷ rest

-- The number of directories that were denied, and the entries in the order of their insertion.
unfoldable pub build_inode_to_pid : List (Bytes × Fds) → ℕ × List (ℕ × ℤ)
build_inode_to_pid [] = (0, [])
build_inode_to_pid ((name, fds) ∷ rest) =
    let (denied, later) = build_inode_to_pid rest in
    let (more, found) : ℕ × List (ℕ × ℤ) = elim fds [
      | opened links ↦ (0, fd_inodes (atoi name) links)
      | closed eacces ↦ (if eacces then 1 else 0, [])
    ] in
    if is_number name then (more + denied, found ++ later) else (denied, later)

-- The content of /proc/<pid>/comm is an argument.
unfoldable pub process_comm : (ℤ → Bytes) → ℤ → Bytes
process_comm comm pid = trim (comm pid)

abbrev pub with_owner : (ℤ → Bytes) → Option ℤ → ListeningSocket → ListeningSocket
with_owner comm none s = s
with_owner comm (some pid) s = record s { pid = pid; process_name = process_comm comm pid }

unfoldable pub listening : (ℤ → Bytes) → List (ℕ × ℤ) → RawSocket → ListeningSocket
listening comm owners r = with_owner comm (owner r.inode owners) (record {
  proto = r.proto;
  local_addr = r.addr;
  local_port = r.port;
  pid = negsuc 0;
  process_name = [];
  world_reachable = is_wildcard r.addr;
})

unfoldable pub socket_before : ListeningSocket → ListeningSocket → Bool
socket_before a b =
    if bytes_eq a.proto b.proto then ltb a.local_port b.local_port else bytes_lt a.proto b.proto

-- std::sort, which leaves the order of equal sockets open; here they keep theirs.
unfoldable pub insert_socket : ListeningSocket → List ListeningSocket → List ListeningSocket
insert_socket s [] = s ∷ []
insert_socket s (t ∷ ts) =
    let rest = insert_socket s ts in if socket_before t s then t ∷ rest else s ∷ t ∷ ts

unfoldable pub sort_sockets : List ListeningSocket → List ListeningSocket
sort_sockets [] = []
sort_sockets (s ∷ ss) = insert_socket s (sort_sockets ss)

unfoldable pub listening_all : (ℤ → Bytes) → List (ℕ × ℤ) → List RawSocket → List ListeningSocket
listening_all comm owners [] = []
listening_all comm owners (r ∷ rs) = listening comm owners r ∷ listening_all comm owners rs

-- The contents of the four tables, the entries of /proc and the files comm.
pub record SocketFiles : Type 0 where
  pub tcp : Option Bytes
  pub tcp6 : Option Bytes
  pub udp : Option Bytes
  pub udp6 : Option Bytes
  pub proc : List (Bytes × Fds)
  pub comm : ℤ → Bytes

abbrev pub table : Bytes → Option (List RawSocket) → List Bytes × List RawSocket
table path none = ((codes "could not read " ++ path) ∷ [], [])
table path (some raw) = ([], raw)

abbrev pub denied_warning : ℕ → List Bytes
denied_warning zero = []
denied_warning (suc n) =
    (print_i64 (pos (suc n))
      ++ codes
          " processes denied fd enumeration (run as root to resolve every socket to its owning process)")
    ∷ []

unfoldable pub collect_listening_sockets : Printer → SocketFiles → Status × List ListeningSocket
collect_listening_sockets print files =
    let (w1, r1) =
      table (codes "/proc/net/tcp") (parse_proc_net print (codes "tcp") true files.tcp) in
    let (w2, r2) =
      table (codes "/proc/net/tcp6") (parse_proc_net print (codes "tcp6") true files.tcp6) in
    let (w3, r3) =
      table (codes "/proc/net/udp") (parse_proc_net print (codes "udp") false files.udp) in
    let (w4, r4) =
      table (codes "/proc/net/udp6") (parse_proc_net print (codes "udp6") false files.udp6) in
    let (denied, owners) = build_inode_to_pid files.proc in
    (
      record { implemented = true; warnings = w1 ++ (w2 ++ (w3 ++ (w4 ++ denied_warning denied))) },
      sort_sockets (listening_all files.comm owners (r1 ++ (r2 ++ (r3 ++ r4)))),
    )
