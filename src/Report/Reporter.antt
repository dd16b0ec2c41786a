-- ===== src/Report/Reporter.antt =====
-- Reporter and cmd_report of src/main.cpp.
use nano_sensor.Base.{
  ℕ, zero, suc, ◌+◌, ◌/◌, Bool, true, false, not, ◌&&◌, Option, none, some, List, [], ◌∷◌, ◌++◌,
  ◌==◌, if◌then◌else◌,
}
use nano_sensor.Base.Int.{ℤ, pos, negsuc}
use nano_sensor.Text.{Bytes, codes}
use nano_sensor.Json.{json_writer, begin_object, end_object, field, field_bool, field_i64}
use nano_sensor.Cve.Names.{is_empty}
use nano_sensor.Inventory.{Inventory, to_json}
use nano_sensor.Spool.Queue.{Config, Error, Spool, Disk, Outcome, Returned, append, stats}
use nano_sensor.Spool.Opening.{open_spool}
use nano_sensor.Report.Drain.{Surroundings, Limits, Drain, drain}
use nano_sensor.Report.Options.{Options}
use nano_sensor.Report.Records.{read_first_line, make_record, synthetic_record, inventory_id}

-- Transport::Config, with its default timeout.
pub record TransportConfig : Type 0 where
  pub url : Bytes
  pub client_cert_path : Bytes
  pub client_key_path : Bytes
  pub server_pin_sha256 : Bytes
  pub timeout_ms : ℕ

pub data InitError : Type 0 where
  needs_pin no_transport : InitError
  spool_failed : Error → InitError

-- What init meets: the pin file, the directory, the calls on it, and whether a transport can be made.
pub record Host : Type 0 where
  pub pin_text : Bytes
  pub names : List Bytes
  pub files : Outcome
  pub makes_transport : TransportConfig → Bool

-- The members of a Spool before open.
abbrev pub new_spool : Spool
new_spool = record {
  cfg = record { dir = []; max_bytes = 0; segment_bytes = 0; fsync_on_append = false };
  is_open = false;
  segments = [];
  read_segment = 0;
  read_offset = 0;
  next_sequence = 1;
  stats = record {
    appended = 0;
    committed = 0;
    dropped = 0;
    pending = 0;
    bytes_on_disk = 0;
    segments = 0;
  };
}

unfoldable pub pin_of : Host → Options → Bytes
pin_of host opt =
    if is_empty opt.pin && not (is_empty opt.pin_file)
    then read_first_line host.pin_text
    else opt.pin

abbrev pub spool_config : Options → Config
spool_config opt = record {
  dir = opt.spool_dir;
  max_bytes = opt.spool_max_bytes;
  segment_bytes = opt.spool_max_bytes / 8 + 1;
  fsync_on_append = false;
}

abbrev pub transport_config : Options → Bytes → TransportConfig
transport_config opt pin = record {
  url = opt.url;
  client_cert_path = opt.client_cert;
  client_key_path = opt.client_key;
  server_pin_sha256 = pin;
  timeout_ms = 15000;
}

unfoldable pub init : Host → Options → Disk → Option InitError × Spool × Disk
init host opt d =
    let pin = pin_of host opt in
    let (e, s, d') = open_spool host.files host.names (spool_config opt) new_spool d in
    if is_empty pin then (some needs_pin, new_spool, d) else elim e [
      | some error ↦ (some (spool_failed error), s, d')
      | none ↦
          if host.makes_transport (transport_config opt pin)
          then (none, s, d')
          else (some no_transport, s, d')
    ]

-- The clock, the collected inventory and the calls of the file system of one collection.
pub record Collection : Type 0 where
  pub now : ℤ
  pub run_tag : Bytes
  pub inventory : Inventory
  pub files : ℕ → Outcome

-- `left` synthetic records from number i on.
unfoldable pub synthetic_loop : Collection → ℕ → ℕ → Spool → Disk → Returned
synthetic_loop c zero i s d = (none, s, d)
synthetic_loop c (suc left) i s d =
    let (e, s', d') = append (c.files i) (synthetic_record c.run_tag c.now i) s d in
    elim e [ some error ↦ (some error, s', d') | none ↦ synthetic_loop c left (suc i) s' d' ]

abbrev pub inventory_record : Collection → Inventory → Bytes
inventory_record c inv =
    make_record (inventory_id inv.host.hostname c.run_tag c.now) (codes "inventory")
      (to_json inv false)

unfoldable pub append_inventory : Collection → Inventory → Spool → Disk → Returned
append_inventory c inv s d = append (c.files 0) (inventory_record c inv) s d

abbrev pub collect_as : Collection → ℤ → Spool → Disk → Returned
collect_as c (pos zero) s d = append_inventory c c.inventory s d
collect_as c (pos (suc n)) s d = synthetic_loop c (suc n) 0 s d
collect_as c (negsuc n) s d = append_inventory c c.inventory s d

unfoldable pub collect : Collection → Options → Spool → Disk → Returned
collect c opt s d = collect_as c opt.synthetic s d

abbrev pub limits : Options → Limits
limits opt = record { batch_size = opt.batch_size; max_attempts = opt.max_attempts }

-- What print_stats writes; `backend` is the name of the transport.
unfoldable pub print_stats : Bytes → Drain → Bool → Bytes
print_stats backend t pretty =
    let st = (stats t.spool t.disk).stats in
    let w0 = field (codes "backend") backend (begin_object (json_writer pretty)) in
    let w1 = field_i64 (codes "sent") (pos t.sent) w0 in
    let w2 = field_i64 (codes "pending") (pos st.pending) w1 in
    let w3 = field_i64 (codes "appended") (pos st.appended) w2 in
    let w4 = field_i64 (codes "committed") (pos st.committed) w3 in
    let w5 = field_i64 (codes "dropped") (pos st.dropped) w4 in
    let w6 = field_i64 (codes "bytes_on_disk") (pos st.bytes_on_disk) w5 in
    let w7 = field_bool (codes "gave_up") t.gave_up w6 in (end_object w7).out ++ (10 ∷ [])

-- The exit code, what goes to stdout, and what is left on disk.
pub record Report : Type 0 where
  pub code : ℕ
  pub stdout : Bytes
  pub disk : Disk

abbrev pub failed : ℕ → Disk → Report
failed code d = record { code = code; stdout = []; disk = d }

abbrev pub report_drained : Options → Bytes → Drain → Report
report_drained opt backend t = record {
  code = if t.gave_up && (t.sent == 0) then 1 else 0;
  stdout = print_stats backend t opt.pretty;
  disk = t.disk;
}

abbrev pub collected : Collection → Options → Spool → Disk → Returned
collected c opt s d = elim opt.drain_only [ true ↦ (none, s, d) | false ↦ collect c opt s d ]

-- cmd_report, with at most `fuel` rounds of the drain.
unfoldable pub cmd_report : Host → Collection → Surroundings → Bytes → ℕ → Options → Disk → Report
cmd_report host c w backend fuel opt d =
    let (e, s, d1) = init host opt d in
    let (e', s', d2) = collected c opt s d1 in
    if is_empty opt.url then failed 2 d else elim e [
      | some error ↦ failed 1 d1
      | none ↦ elim e' [
        | some error ↦ failed 1 d2
        | none ↦ report_drained opt backend (drain w (limits opt) fuel s' d2)
      ]
    ]
