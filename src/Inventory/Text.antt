-- ===== src/Inventory/Text.antt =====
-- The document that to_json of src/inventory.cpp writes.
use nano_sensor.Base.{Bool, List, [], ◌∷◌, ◌≡◌, refl, ap, ◌∙◌}
use nano_sensor.Base.Int.{ℤ, pos, negsuc}
use nano_sensor.Text.{Bytes, codes}
use nano_sensor.Json.{JsonWriter, json_writer, begin_object, end_object, value}
use nano_sensor.Json.Document.{
  Members, no_members, member, Value, text, truth, integer, null, object, array, Elements,
  no_elements, text_element, object_element, write_members, write_value, write_elements,
  write_document, value_text,
}
use nano_sensor.Json.Writing.{write_document-value_text}
use nano_sensor.Inventory.{
  NetInterface, ListeningSocket, Process, Package, Inventory, each, write_agent, write_host,
  write_interface, write_pid, write_socket, write_process, write_package, write_inventory, to_json,
}

abbrev pub strings : List Bytes → Elements
strings [] = no_elements
strings (s ∷ ss) = text_element s (strings ss)

abbrev pub objects {ℓ} : {A : Type ℓ} → (A → Members) → List A → Elements
objects f [] = no_elements
objects f (a ∷ rest) = object_element (f a) (objects f rest)

abbrev pub interface_of : NetInterface → Members
interface_of i = member (codes "name") (text i.name) (
    member (codes "mac") (text i.mac) (
      member (codes "addresses") (array (strings i.addresses)) (
        member (codes "up") (truth i.up)
          (member (codes "loopback") (truth i.loopback) no_members))))

-- The process id, or null where it is not known.
abbrev pub pid_of : ℤ → Value
pid_of (pos n) = integer (pos n)
pid_of (negsuc n) = null

abbrev pub socket_of : ListeningSocket → Members
socket_of s = member (codes "proto") (text s.proto) (
    member (codes "local_addr") (text s.local_addr) (
      member (codes "local_port") (integer (pos s.local_port)) (
        member (codes "pid") (pid_of s.pid) (
          member (codes "process_name") (text s.process_name)
            (member (codes "world_reachable") (truth s.world_reachable) no_members)))))

abbrev pub process_of : Process → Members
process_of p = member (codes "pid") (integer p.pid) (
    member (codes "ppid") (integer p.ppid) (
      member (codes "name") (text p.name) (
        member (codes "exe_path") (text p.exe_path)
          (member (codes "user") (text p.user) no_members))))

abbrev pub package_of : Package → Members
package_of p = member (codes "name") (text p.name) (
    member (codes "version") (text p.version) (
      member (codes "vendor") (text p.vendor) (member (codes "source") (text p.source) no_members)))

abbrev pub document_of : Inventory → Members
document_of inv =
    member (codes "agent")
      (object (
        member (codes "name") (text inv.agent_name) (
          member (codes "version") (text inv.agent_version) (
            member (codes "stage") (text inv.agent_stage)
              (member (codes "platform") (text inv.platform) no_members)))))
      (member (codes "collected_at_unix_ms") (integer inv.collected_at_unix_ms) (
        member (codes "collect_duration_ms") (integer inv.collect_duration_ms) (
          member (codes "host")
            (object (
              member (codes "hostname") (text inv.host.hostname) (
                member (codes "os_name") (text inv.host.os_name) (
                  member (codes "os_version") (text inv.host.os_version) (
                    member (codes "kernel") (text inv.host.kernel)
                      (member (codes "arch") (text inv.host.arch) no_members))))))
            (member (codes "interfaces") (array (objects interface_of inv.interfaces)) (
              member (codes "listening_sockets") (array (objects socket_of inv.sockets)) (
                member (codes "processes") (array (objects process_of inv.processes)) (
                  member (codes "packages") (array (objects package_of inv.packages))
                    (member (codes "warnings") (array (strings inv.warnings)) no_members))))))))

pub strings_lem :
    (ss : List Bytes) (w : JsonWriter) → each value ss w ≡ write_elements (strings ss) w
unfolding write_elements
strings_lem [] w = refl
strings_lem (s ∷ ss) w = strings_lem ss (value s w)

interfaces_lem :
    (is : List NetInterface) (w : JsonWriter)
    → each write_interface is w ≡ write_elements (objects interface_of is) w
unfolding write_elements write_members write_value write_interface
interfaces_lem [] w = refl
interfaces_lem (i ∷ is) w = rw (strings_lem i.addresses) (interfaces_lem is _)

pid_lem : (p : ℤ) (w : JsonWriter) → write_pid p w ≡ write_value (codes "pid") (pid_of p) w
unfolding write_value
pid_lem (pos n) w = refl
pid_lem (negsuc n) w = refl

sockets_lem :
    (ss : List ListeningSocket) (w : JsonWriter)
    → each write_socket ss w ≡ write_elements (objects socket_of ss) w
unfolding write_elements write_members write_value write_socket
sockets_lem [] w = refl
sockets_lem (s ∷ ss) w = rw (pid_lem s.pid) (sockets_lem ss _)

processes_lem :
    (ps : List Process) (w : JsonWriter)
    → each write_process ps w ≡ write_elements (objects process_of ps) w
unfolding write_elements write_members write_value write_process
processes_lem [] w = refl
processes_lem (p ∷ ps) w = processes_lem ps _

packages_lem :
    (ps : List Package) (w : JsonWriter)
    → each write_package ps w ≡ write_elements (objects package_of ps) w
unfolding write_elements write_members write_value write_package
packages_lem [] w = refl
packages_lem (p ∷ ps) w = packages_lem ps _

same_calls :
    (inv : Inventory) (w : JsonWriter) → write_inventory inv w ≡ write_members (document_of inv) w
unfolding write_inventory write_members write_value write_agent write_host
same_calls inv w =
    rw
      (
        interfaces_lem inv.interfaces,
        sockets_lem inv.sockets,
        processes_lem inv.processes,
        packages_lem inv.packages,
        strings_lem inv.warnings,
      )
      refl

-- to_json writes the text of one well-formed document: every part of the inventory under its key,
-- one object for each entry, and null for a process id below 0.
pub to_json-value_text :
    (inv : Inventory) (pretty : Bool)
    → to_json inv pretty ≡ value_text pretty 0 (object (document_of inv))
unfolding to_json write_document
to_json-value_text inv pretty =
    ap (λ (w : JsonWriter). (end_object w).out) (same_calls inv (begin_object (json_writer pretty)))
    ∙ write_document-value_text pretty (document_of inv)
