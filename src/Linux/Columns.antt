-- ===== src/Linux/Columns.antt =====
-- The columns of /proc/net/tcp that src/platform/platform_linux.cpp reads.
use nano_sensor.Base.{
  ℕ, ◌≡◌, refl, sym, Bool, true, false, inl, inr, not, ◌&&◌, Option, Option-cases, none, some, List,
  ◌∷◌, ◌==◌, if◌then◌else◌, take,
}
use mathlib.Core.Path.{subst}
use nano_sensor.Text.{Bytes, rfind}
use nano_sensor.Numbers.{strtoul_16}
use nano_sensor.Spool.Opening.{strtoull}
use nano_sensor.Linux.Files.{words}
use nano_sensor.Linux.Sockets.{Printer, RawSocket, parse_hex_addr, socket_at, socket_of_line}

abbrev HasInode : ℕ → Option RawSocket → Type 0
HasInode n none = Unit
HasInode n (some s) = s.inode ≡ n

socket_at-HasInode :
    (print : Printer) (proto local inode : Bytes) (o : Option ℕ)
    → HasInode (strtoull inode) (socket_at print proto local inode o)
socket_at-HasInode print proto local inode none = tt
socket_at-HasInode print proto local inode (some colon) =
    elim (Option-cases (parse_hex_addr print (take colon local))) [
      | inl e ↦ rw (HasInode, socket_at, e) tt
      | inr (addr, e) ↦ rw (HasInode, socket_at, e) refl
    ]

either-HasInode :
    (test : Bool) (n : ℕ) (found : Option RawSocket)
    → HasInode n found
    → HasInode n (if test then none else found)
either-HasInode true n found h = tt
either-HasInode false n found h = h

read_columns :
    (print : Printer) (proto : Bytes) (tcp_only_listen : Bool) (line : Bytes)
    (sl local rem st queues timer retransmits uid : Bytes) (more : List Bytes)
    → words line ≡ sl ∷ local ∷ rem ∷ st ∷ queues ∷ timer ∷ retransmits ∷ uid ∷ more
    → socket_of_line print proto tcp_only_listen line ≡ (
        if tcp_only_listen && not (strtoul_16 st == 0x0A)
        then none
        else socket_at print proto local uid (rfind b':' local))
unfolding socket_of_line
read_columns print proto tcp_only_listen line sl local rem st queues timer retransmits uid more h =
    rw (socket_of_line, h) refl

line-HasInode :
    (print : Printer) (proto : Bytes) (tcp_only_listen : Bool) (line : Bytes)
    (sl local rem st queues timer retransmits uid : Bytes) (more : List Bytes)
    → words line ≡ sl ∷ local ∷ rem ∷ st ∷ queues ∷ timer ∷ retransmits ∷ uid ∷ more
    → HasInode (strtoull uid) (socket_of_line print proto tcp_only_listen line)
line-HasInode print proto tcp_only_listen line sl local rem st queues timer retransmits uid more h =
    let test : Bool = tcp_only_listen && not (strtoul_16 st == 0x0A) in
    let found : Option RawSocket = socket_at print proto local uid (rfind b':' local) in
    subst (λ (o : Option RawSocket). HasInode (strtoull uid) o)
      (sym (
        read_columns print proto tcp_only_listen line sl local rem st queues timer retransmits uid
          more h))
      (either-HasInode test (strtoull uid) found
        (socket_at-HasInode print proto local uid (rfind b':' local)))

-- Let a line have the columns of the kernel's tables: number, local and remote address, state,
-- queues, timer, retransmits, user id, time-out, inode and more. A socket that is made of it carries
-- the number in the column of the user id as its inode, whatever the column of the inode holds.
pub socket_of_line-uid :
    (print : Printer) (proto : Bytes) (tcp_only_listen : Bool) (line : Bytes)
    (sl local rem st queues timer retransmits uid timeout inode : Bytes) (more : List Bytes)
    (s : RawSocket)
    → words line
      ≡ sl ∷ local ∷ rem ∷ st ∷ queues ∷ timer ∷ retransmits ∷ uid ∷ timeout ∷ inode ∷ more
    → socket_of_line print proto tcp_only_listen line ≡ some s
    → s.inode ≡ strtoull uid
socket_of_line-uid print proto tcp_only_listen line sl local rem st queues timer retransmits uid
      timeout inode more s h e =
    subst (λ (o : Option RawSocket). HasInode (strtoull uid) o) e
      (line-HasInode print proto tcp_only_listen line sl local rem st queues timer retransmits uid
        (timeout ∷ inode ∷ more) h)
