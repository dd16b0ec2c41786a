-- ===== src/Inventory/Tests.antt =====
-- Examples of the inventory's report.
use nano_sensor.Base.{true, false, [], ◌∷◌, ◌≡◌}
use nano_sensor.Base.Int.{pos, negsuc}
use nano_sensor.Text.{codes}
use nano_sensor.Json.Document.{object, value_text}
use nano_sensor.Inventory.{Status, Inventory, collect_inventory, to_json}
use nano_sensor.Inventory.Text.{document_of, to_json-value_text}

abbrev has : Status
has = record { implemented = true; warnings = [] }

abbrev small_host : Inventory
small_host = collect_inventory (record {
  name = codes "linux";
  now = pos 1700000000000;
  took = pos 12;
  host =
      (has, record { hostname = codes "h"; os_name = []; os_version = []; kernel = []; arch = [] });
  interfaces = (record { implemented = false; warnings = [] }, []);
  sockets = (
    has,
    record {
      proto = codes "tcp";
      local_addr = codes "0.0.0.0";
      local_port = 22;
      pid = negsuc 0;
      process_name = [];
      world_reachable = true;
    }
        ∷ [],
  );
  processes = (has, []);
  packages = (has, []);
})

to_json-value_text_example :
    to_json small_host true ≡ value_text true 0 (object (document_of small_host))
to_json-value_text_example = to_json-value_text small_host true
