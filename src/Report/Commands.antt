-- ===== src/Report/Commands.antt =====
-- The commands of src/main.cpp and the dispatch of main.
use nano_sensor.Base.{ℕ, Bool, Option, none, some, List, [], ◌∷◌, ◌++◌, if◌then◌else◌, drop}
use nano_sensor.Text.{Bytes, codes, bytes_eq}
use nano_sensor.Json.{print_i64}
use nano_sensor.Inventory.{Inventory, to_json, agent_name, agent_version, agent_stage}
use nano_sensor.Cve.Names.{is_empty}
use nano_sensor.Cve.Index.{CveIndex, load_rules, load_aliases}
use nano_sensor.Cve.Scan.{ScanSummary, scan}
use nano_sensor.Cve.Report.{findings_to_json}
use nano_sensor.Report.Options.{Options, default_settings, parsed, exits, parse_arguments}
use nano_sensor.Report.Records.{load_package_list, quote_arg}

-- The exit code and what goes to stdout.
pub record Ran : Type 0 where
  pub code : ℕ
  pub stdout : Bytes

abbrev pub exit_with : ℕ → Ran
exit_with code = record { code = code; stdout = [] }

unfoldable pub cmd_version : Bytes → Ran
cmd_version platform = record {
  code = 0;
  stdout =
      agent_name
      ++ (codes " "
          ++ (agent_version
              ++ (codes " ("
                  ++ (agent_stage ++ (codes ", " ++ (platform ++ codes " backend)\n"))))));
}

unfoldable pub cmd_inventory : Inventory → Options → Ran
cmd_inventory inv opt = record { code = 0; stdout = to_json inv opt.pretty ++ (10 ∷ []) }

abbrev pub new_index : CveIndex
new_index = record { by_product = []; exact = []; prefixes = []; rule_count = 0 }

abbrev pub new_summary : ScanSummary
new_summary = record {
  packages_total = 0;
  packages_mapped = 0;
  packages_unmapped = 0;
  packages_no_version = 0;
  findings = 0;
  critical = 0;
  high = 0;
  medium = 0;
  low = 0;
  exposed_findings = 0;
  unmapped_names = [];
}

-- The files that cmd_vuln opens, none where one does not open, the live inventory, and the empty one
-- with the platform and the clock that a package list fills.
pub record VulnHost : Type 0 where
  pub rules : Option Bytes
  pub aliases : Option Bytes
  pub package_list : Option Bytes
  pub live : Inventory
  pub blank : Inventory

abbrev pub inventory_of : VulnHost → Options → Option Inventory
inventory_of host opt =
    if is_empty opt.packages_path then some host.live else elim host.package_list [
      | none ↦ none
      | some text ↦ some (load_package_list text host.blank)
    ]

-- strtod and the format %.1f are arguments.
module _ (strtod : Bytes → ℕ) (print_score : ℕ → Bytes) where
  abbrev pub vuln_report : CveIndex → Options → Inventory → Ran
  vuln_report x opt inv =
      let (found, summary) = scan x inv.sockets inv.packages new_summary in
      record {
        code = 0;
        stdout = findings_to_json print_score found summary inv opt.pretty ++ (10 ∷ []);
      }

  unfoldable pub cmd_vuln : VulnHost → Options → Ran
  cmd_vuln host opt =
      let (e, x) = load_rules strtod host.rules new_index in
      let (e', x') = load_aliases host.aliases x in
      elim e [
        | some error ↦ exit_with 1
        | none ↦ elim e' [
          | some error ↦ exit_with 1
          | none ↦ elim (inventory_of host opt) [
            | none ↦ exit_with 1
            | some inv ↦ vuln_report x' opt inv
          ]
        ]
      ]

-- An option of the service's command line, left out where its value is empty.
abbrev pub unless_empty : Bytes → Bytes → Bytes
unless_empty value text = if is_empty value then [] else text

-- The arguments that `service install` registers; std::filesystem::absolute is an argument.
unfoldable pub service_arguments : (Bytes → Bytes) → Options → Bytes
service_arguments absolute opt =
    codes "run"
    ++ (codes " --index " ++ quote_arg (absolute opt.index_path))
    ++ (codes " --aliases " ++ quote_arg (absolute opt.alias_path))
    ++ (codes " --interval " ++ print_i64 opt.interval_s)
    ++ unless_empty opt.state_dir (
        codes " --state-dir "
        ++ quote_arg (absolute opt.state_dir)
        ++ codes " --log-file "
        ++ quote_arg (absolute (opt.state_dir ++ codes "/agent.log")))
    ++ unless_empty opt.db (codes " --db " ++ quote_arg opt.db)
    ++ unless_empty opt.url (
        codes " --url "
        ++ quote_arg opt.url
        ++ codes " --spool "
        ++ quote_arg (absolute opt.spool_dir)
        ++ unless_empty opt.pin_file (codes " --pin-file " ++ quote_arg (absolute opt.pin_file))
        ++ unless_empty opt.client_cert
            (codes " --client-cert " ++ quote_arg (absolute opt.client_cert)))

-- Whether service::install with these arguments and service::uninstall succeed.
pub record Registry : Type 0 where
  pub absolute : Bytes → Bytes
  pub installs : Bytes → Bool
  pub uninstalls : Bool

unfoldable pub cmd_service : Registry → Options → Bytes → Ran
cmd_service reg opt action =
    let installed : Ran = record {
      code = 0;
      stdout = codes "installed the nano-sensor service\n";
    } in
    let removed : Ran = record { code = 0; stdout = codes "removed the nano-sensor service\n" } in
    if bytes_eq action (codes "install")
    then if reg.installs (service_arguments reg.absolute opt) then installed else exit_with 1
    else if bytes_eq action (codes "uninstall")
    then if reg.uninstalls then removed else exit_with 1
    else exit_with 2

-- The commands, each on the options that were parsed.
pub record Commands : Type 0 where
  pub inventory : Options → Ran
  pub vuln : Options → Ran
  pub report : Options → Ran
  pub run : Options → Ran
  pub service : Options → Bytes → Ran
  pub version : Ran

abbrev pub service_command : Commands → Options → List Bytes → Ran
service_command cmds opt [] = exit_with 2
service_command cmds opt (action ∷ rest) = cmds.service opt action

-- Behind the loop over the arguments. The usage text goes to stderr.
abbrev pub dispatch : Commands → Options → Bytes → List Bytes → Ran
dispatch cmds opt command rest =
    if bytes_eq command (codes "inventory")
    then cmds.inventory opt
    else if bytes_eq command (codes "vuln")
    then cmds.vuln opt
    else if bytes_eq command (codes "report")
    then cmds.report opt
    else if bytes_eq command (codes "run")
    then cmds.run opt
    else if bytes_eq command (codes "service")
    then service_command cmds opt rest
    else if bytes_eq command (codes "version")
    then cmds.version
    else if bytes_eq command (codes "-h")
    then exit_with 0
    else if bytes_eq command (codes "--help")
    then exit_with 0
    else exit_with 2

-- The arguments from argv[1] on; a positional action follows the command `service`.
unfoldable pub main : Commands → List Bytes → Ran
main cmds [] = exit_with 2
main cmds (command ∷ rest) =
    let flags = if bytes_eq command (codes "service") then drop 1 rest else rest in
    elim (parse_arguments flags default_settings) [
      | exits code ↦ exit_with code
      | parsed st ↦ dispatch cmds st.opt command rest
    ]
