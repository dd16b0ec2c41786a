-- ===== src/Linux/Interfaces.antt =====
-- collect_interfaces of src/platform/platform_linux.cpp.
use nano_sensor.Base.{
  ℕ, zero, suc, ◌/◌, ◌%◌, ◌^◌, Bool, true, false, Option, none, some, List, [], ◌∷◌, ◌++◌, ◌==◌,
  if◌then◌else◌, length,
}
use nano_sensor.Base.Int.{pos}
use nano_sensor.Text.{Bytes, codes, bytes_eq}
use nano_sensor.Json.{hex_digit, print_i64}
use nano_sensor.Inventory.{Status, NetInterface}
use nano_sensor.Linux.Sockets.{Printer}

-- The address of a node of getifaddrs, in the bytes of the network, with its mask if there is one.
pub data Address : Type 0 where
  no_address other_family : Address
  inet inet6 : Bytes → Option Bytes → Address
  packet : Bytes → Address

pub record Node : Type 0 where
  pub name : Option Bytes
  pub up : Bool
  pub loopback : Bool
  pub address : Address

-- The bits of a byte, the highest first.
abbrev pub bits_of : ℕ → ℕ → List Bool
bits_of zero b = []
bits_of (suc k) b = (b / 2 ^ k % 2 == 1) ∷ bits_of k b

abbrev pub mask_bits : Bytes → List Bool
mask_bits [] = []
mask_bits (b ∷ bs) = bits_of 8 b ++ mask_bits bs

-- The loops over a mask stop at the first bit that is not set.
unfoldable pub prefix_length : List Bool → ℕ
prefix_length [] = 0
prefix_length (true ∷ bits) = suc (prefix_length bits)
prefix_length (false ∷ bits) = 0

abbrev pub prefix_of : Option Bytes → ℕ
prefix_of none = 0
prefix_of (some mask) = prefix_length (mask_bits mask)

abbrev pub with_address : Option Bytes → ℕ → NetInterface → NetInterface
with_address none n ni = ni
with_address (some text) n ni = record ni {
  addresses = ni.addresses ++ ((text ++ (codes "/" ++ print_i64 (pos n))) ∷ []);
}

-- The format %02x of each byte, with a colon between them.
abbrev pub mac_text : Bytes → Bytes
mac_text [] = []
mac_text (b ∷ []) = hex_digit (b / 16) ∷ hex_digit (b % 16) ∷ []
mac_text (b ∷ c ∷ bs) = hex_digit (b / 16) ∷ hex_digit (b % 16) ∷ b':' ∷ mac_text (c ∷ bs)

unfoldable pub add_address : Printer → Address → NetInterface → NetInterface
add_address print no_address ni = ni
add_address print other_family ni = ni
add_address print (inet bytes mask) ni = with_address (print.inet bytes) (prefix_of mask) ni
add_address print (inet6 bytes mask) ni = with_address (print.inet6 bytes) (prefix_of mask) ni
add_address print (packet bytes) ni =
    if length bytes == 6 then record ni { mac = mac_text bytes } else ni

abbrev pub new_interface : Bytes → NetInterface
new_interface name = record { name = name; mac = []; addresses = []; up = false; loopback = false }

-- A node folded into its interface.
abbrev pub update_interface : Printer → Node → NetInterface → NetInterface
update_interface print node ni =
    add_address print node.address (record ni { up = node.up; loopback = node.loopback })

-- The slot of the name, a new one at the end if there is none.
unfoldable pub fold_node : Printer → Bytes → Node → List NetInterface → List NetInterface
fold_node print name node [] = update_interface print node (new_interface name) ∷ []
fold_node print name node (ni ∷ nis) =
    let rest = fold_node print name node nis in
    if bytes_eq ni.name name then update_interface print node ni ∷ nis else ni ∷ rest

unfoldable pub interface_loop : Printer → List Node → List NetInterface → List NetInterface
interface_loop print [] out = out
interface_loop print (node ∷ nodes) out =
    interface_loop print nodes
      (elim node.name [ none ↦ out | some name ↦ fold_node print name node out ])

-- The nodes, or the error text of getifaddrs.
unfoldable pub collect_interfaces : Printer → Option Bytes → List Node → Status × List NetInterface
collect_interfaces print none nodes =
    (record { implemented = true; warnings = [] }, interface_loop print nodes [])
collect_interfaces print (some error) nodes =
    (record { implemented = true; warnings = (codes "getifaddrs failed: " ++ error) ∷ [] }, [])
