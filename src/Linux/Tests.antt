-- ===== src/Linux/Tests.antt =====
-- Runs of the collectors on Linux, and an example.
use nano_sensor.Base.{◌≡◌, refl, true, none, some, [], ◌∷◌, ◌++◌}
use nano_sensor.Base.Int.{pos}
use nano_sensor.Text.{Bytes, codes, find, rfind}
use nano_sensor.Spool.Frame.{put_u32}
use nano_sensor.Spool.Opening.{strtoull}
use nano_sensor.Cve.Names.{trim}
use nano_sensor.Numbers.{atoi, strtoul_16}
use nano_sensor.Linux.Files.{strip_quotes, is_number, words, os_release_loop, read_os_release}
use nano_sensor.Linux.Sockets.{
  Printer, RawSocket, parse_hex_addr, socket_of_line, opened, closed, fd_inodes, build_inode_to_pid,
}
use nano_sensor.Linux.Processes.{ppid_of}
use nano_sensor.Linux.Packages.{package_of_query}
use nano_sensor.Linux.Interfaces.{prefix_length, mask_bits, mac_text}
use nano_sensor.Linux.Columns.{socket_of_line-uid}
use nano_sensor.Linux.Stat.{ppid_of-second}

abbrev raw_bytes : Printer
raw_bytes = record { inet = λ bytes. some bytes; inet6 = λ bytes. some bytes }

release_is_read :
    read_os_release (some (codes "ID=x\nNAME=\"My OS\"\nVERSION_ID=\"1.2\"\n")) ([], [])
    ≡ (true, codes "My OS", codes "1.2")
unfolding read_os_release os_release_loop strip_quotes trim find
release_is_read = refl

address_is_little_endian : parse_hex_addr raw_bytes (codes "0100007F") ≡ some (127 ∷ 0 ∷ 0 ∷ 1 ∷ [])
unfolding parse_hex_addr strtoul_16 put_u32
address_is_little_endian = refl

-- A line of /proc/net/tcp: user 1000, inode 4242.
abbrev tcp_line : Bytes
tcp_line = codes "0: 0100007F:1F90 00000000:0000 0A 0:0 00:0 0 1000 0 4242"

abbrev read_socket : RawSocket
read_socket = record { proto = codes "tcp"; addr = 127 ∷ 0 ∷ 0 ∷ 1 ∷ []; port = 8080; inode = 1000 }

line_is_read : socket_of_line raw_bytes (codes "tcp") true tcp_line ≡ some read_socket
unfolding socket_of_line words strtoul_16 rfind parse_hex_addr put_u32 strtoull
line_is_read = refl

words_of_line :
    words tcp_line
    ≡ codes "0:"
      ∷ codes "0100007F:1F90"
      ∷ codes "00000000:0000"
      ∷ codes "0A"
      ∷ codes "0:0"
      ∷ codes "00:0"
      ∷ codes "0"
      ∷ codes "1000"
      ∷ codes "0"
      ∷ codes "4242"
      ∷ []
unfolding words
words_of_line = refl

socket_of_line-uid_example : 1000 ≡ strtoull (codes "1000")
socket_of_line-uid_example =
    socket_of_line-uid raw_bytes (codes "tcp") true tcp_line (codes "0:") (codes "0100007F:1F90")
      (codes "00000000:0000") (codes "0A") (codes "0:0") (codes "00:0") (codes "0") (codes "1000")
      (codes "0") (codes "4242") [] read_socket words_of_line line_is_read

owner_of_inode :
    build_inode_to_pid (
      (
        codes "12",
        opened ((codes "3", some (codes "socket:[42]")) ∷ (codes "4", some (codes "/x")) ∷ []),
      )
      ∷ (codes "self", closed true)
      ∷ (codes "13", closed true)
      ∷ [])
    ≡ (1, (42, pos 12) ∷ [])
unfolding build_inode_to_pid fd_inodes is_number atoi strtoull
owner_of_inode = refl

removed_package : package_of_query (codes "dpkg") (codes "config-files\tcurl\t1\tx\n") ≡ none
unfolding package_of_query trim
removed_package = refl

mask_of_a_subnet : prefix_length (mask_bits (255 ∷ 255 ∷ 240 ∷ 0 ∷ [])) ≡ 20
unfolding prefix_length
mask_of_a_subnet = refl

mac_is_hexadecimal : mac_text (10 ∷ 255 ∷ []) ≡ codes "0a:ff"
mac_is_hexadecimal = refl

-- A name with a parenthesis and blanks.
ppid_of-second_example :
    ppid_of (
      codes "7 (a) S 9 (b" ++ (b')' ∷ 32 ∷ (codes "S" ++ (32 ∷ (codes "1" ++ (32 ∷ codes "7 7"))))))
    ≡ atoi (codes "1")
ppid_of-second_example =
    ppid_of-second (codes "7 (a) S 9 (b") (codes "S") (codes "1") (codes "7 7") refl refl refl refl
      (unfold rfind in refl)
