-- ===== src/Cve/Tests.antt =====
-- Runs of the matcher, and examples.
use nano_sensor.Base.{false, ◌≤◌, ◌≡◌, refl, List, [], ◌∷◌}
use nano_sensor.Base.Int.{pos}
use nano_sensor.Text.{Bytes, codes, find, rfind}
use nano_sensor.Vercmp.{strip_epoch, version_upstream_part}
use nano_sensor.Json.Document.{object, value_text}
use nano_sensor.Inventory.{Inventory, Package, agent_name, agent_version, agent_stage}
use nano_sensor.Cve.Names.{normalize_name, trim, token_is_version, token_is_noise}
use nano_sensor.Cve.Index.{CveRule, CveIndex, rule_of, target_of, resolve}
use nano_sensor.Cve.Match.{Finding, match_package}
use nano_sensor.Cve.Scan.{scan}
use nano_sensor.Cve.Report.{findings_to_json, report_members, findings_to_json-value_text}
use nano_sensor.Cve.Best.{score_of, top_score, count_id, match_package-top_score}
use nano_sensor.Cve.Totals.{Reported, blank_summary, scan-Reported}

marketing_name : normalize_name (codes "Python 3.12.1 (64-bit)") ≡ codes "python"
unfolding normalize_name trim token_is_version token_is_noise
marketing_name = refl

-- Two rules for one CVE, with the scores 5.0 and 7.5.
abbrev curl_rules : List CveRule
curl_rules =
    rule_of (λ s. 50)
      (codes "CVE-1"
        ∷ codes "haxx"
        ∷ codes "curl"
        ∷ codes "*"
        ∷ []
        ∷ []
        ∷ []
        ∷ []
        ∷ codes "8"
        ∷ codes "5.0"
        ∷ []
        ∷ []
        ∷ [])
    ∷ rule_of (λ s. 75)
        (codes "CVE-1"
          ∷ codes "haxx"
          ∷ codes "curl"
          ∷ codes "*"
          ∷ []
          ∷ []
          ∷ []
          ∷ []
          ∷ codes "9"
          ∷ codes "7.5"
          ∷ []
          ∷ []
          ∷ [])
    ∷ []

abbrev small_index : CveIndex
small_index = record {
  by_product = (codes "haxx:curl", curl_rules) ∷ [];
  exact = (codes "curl", codes "haxx:curl") ∷ [];
  prefixes = [];
  rule_count = 2;
}

abbrev curl : Package
curl = record { name = codes "curl"; version = codes "7.1-2"; vendor = []; source = codes "dpkg" }

match_package-top_score_example :
    (score_of (codes "CVE-1") (match_package small_index curl)
      ≡ top_score (codes "CVE-1") (version_upstream_part curl.version) curl_rules)
    × (count_id (codes "CVE-1") (match_package small_index curl) ≤ 1)
unfolding resolve normalize_name trim token_is_version token_is_noise target_of find
    version_upstream_part strip_epoch rfind
match_package-top_score_example =
    match_package-top_score small_index curl (codes "haxx", codes "curl") curl_rules (codes "CVE-1")
      refl refl refl refl

abbrev two_prefixes : List (Bytes × Bytes)
two_prefixes = (codes "lib", codes "a:b") ∷ (codes "libssl", codes "openssl:openssl") ∷ []

scan-Reported_example : Reported 2 (scan small_index [] (curl ∷ curl ∷ []) blank_summary)
scan-Reported_example = scan-Reported small_index [] (curl ∷ curl ∷ [])

abbrev quiet_host : Inventory
quiet_host = record {
  agent_name = agent_name;
  agent_version = agent_version;
  agent_stage = agent_stage;
  platform = codes "linux";
  collected_at_unix_ms = pos 5;
  collect_duration_ms = pos 1;
  host = record {
    hostname = codes "h";
    os_name = codes "Debian";
    os_version = codes "12";
    kernel = codes "6.1";
    arch = codes "x86_64";
  };
  interfaces = [];
  sockets = [];
  processes = [];
  packages = curl ∷ [];
  warnings = [];
}

abbrev curl_findings : List Finding
curl_findings = (scan small_index [] (curl ∷ []) blank_summary).0

findings_to_json-value_text_example :
    findings_to_json (λ n. codes "7.5") curl_findings blank_summary quiet_host false
    ≡ value_text false 0
        (object (report_members (λ n. codes "7.5") curl_findings blank_summary quiet_host))
findings_to_json-value_text_example =
    findings_to_json-value_text (λ n. codes "7.5") curl_findings blank_summary quiet_host false
