-- ===== src/Cve/Report.antt =====
-- findings_to_json of src/cve.cpp.
use nano_sensor.Base.{ℕ, Bool, List, [], ◌∷◌, ◌≡◌, refl, ap, ◌∙◌}
use nano_sensor.Base.Int.{pos}
use nano_sensor.Text.{Bytes, codes}
use nano_sensor.Json.{
  JsonWriter, json_writer, begin_object, begin_object_key, end_object, field, field_bool,
  field_double, field_i64, value,
}
use nano_sensor.Json.Document.{
  Members, no_members, member, text, truth, decimal, integer, object, array, write_members,
  write_value, write_elements, write_document, value_text,
}
use nano_sensor.Json.Writing.{write_document-value_text}
use nano_sensor.Inventory.{Inventory, agent_name, agent_version, agent_stage, each, write_array}
use nano_sensor.Inventory.Text.{strings, objects, strings_lem}
use nano_sensor.Cve.Match.{Finding}
use nano_sensor.Cve.Scan.{ScanSummary}

unfoldable pub write_scanner : Inventory → JsonWriter → JsonWriter
write_scanner inv w = end_object (
    field (codes "platform") inv.platform (
      field (codes "stage") agent_stage (
        field (codes "version") agent_version
          (field (codes "name") agent_name (begin_object_key (codes "agent") w)))))

unfoldable pub write_summary : ScanSummary → JsonWriter → JsonWriter
write_summary s w =
    let count = λ (key : Bytes) (n : ℕ) (w : JsonWriter). field_i64 key (pos n) w in
    end_object (
      count (codes "network_exposed_findings") s.exposed_findings (
        count (codes "low") s.low (
          count (codes "medium") s.medium (
            count (codes "high") s.high (
              count (codes "critical") s.critical (
                count (codes "findings") s.findings (
                  count (codes "packages_no_version") s.packages_no_version (
                    count (codes "packages_unmapped") s.packages_unmapped (
                      count (codes "packages_mapped") s.packages_mapped (
                        count (codes "packages_total") s.packages_total
                          (begin_object_key (codes "summary") w)))))))))))

-- The text of a score in the format %.1f is an argument.
module _ (print_score : ℕ → Bytes) where
  unfoldable pub write_finding : Finding → JsonWriter → JsonWriter
  write_finding f w = end_object (
      field_bool (codes "network_exposed") f.network_exposed (
        field (codes "cvss_version") f.cvss_version (
          field (codes "cvss_severity") f.cvss_severity (
            field_double (codes "cvss_score") (print_score f.cvss_score) (
              field (codes "cpe_product") f.product (
                field (codes "cpe_vendor") f.vendor (
                  field (codes "matched_version") f.matched_version (
                    field (codes "installed_version") f.package_version (
                      field (codes "package") f.package_name
                        (field (codes "cve") f.cve_id (begin_object w)))))))))))

  -- The calls between the first begin_object and the last end_object.
  unfoldable pub write_report : List Finding → ScanSummary → Inventory → JsonWriter → JsonWriter
  write_report findings s inv w0 =
      let w1 = write_scanner inv w0 in
      let w2 = field (codes "hostname") inv.host.hostname w1 in
      let w3 = field (codes "os_name") inv.host.os_name w2 in
      let w4 = field_i64 (codes "collected_at_unix_ms") inv.collected_at_unix_ms w3 in
      let w5 = write_summary s w4 in
      let w6 = write_array (codes "findings") write_finding findings w5 in
      write_array (codes "unmapped_packages") value s.unmapped_names w6

  unfoldable pub findings_to_json : List Finding → ScanSummary → Inventory → Bool → Bytes
  findings_to_json findings s inv pretty =
      (end_object (write_report findings s inv (begin_object (json_writer pretty)))).out

  abbrev pub finding_members : Finding → Members
  finding_members f = member (codes "cve") (text f.cve_id) (
      member (codes "package") (text f.package_name) (
        member (codes "installed_version") (text f.package_version) (
          member (codes "matched_version") (text f.matched_version) (
            member (codes "cpe_vendor") (text f.vendor) (
              member (codes "cpe_product") (text f.product) (
                member (codes "cvss_score") (decimal (print_score f.cvss_score)) (
                  member (codes "cvss_severity") (text f.cvss_severity) (
                    member (codes "cvss_version") (text f.cvss_version) (
                      member (codes "network_exposed") (truth f.network_exposed) no_members)))))))))

  abbrev pub summary_members : ScanSummary → Members
  summary_members s = member (codes "packages_total") (integer (pos s.packages_total)) (
      member (codes "packages_mapped") (integer (pos s.packages_mapped)) (
        member (codes "packages_unmapped") (integer (pos s.packages_unmapped)) (
          member (codes "packages_no_version") (integer (pos s.packages_no_version)) (
            member (codes "findings") (integer (pos s.findings)) (
              member (codes "critical") (integer (pos s.critical)) (
                member (codes "high") (integer (pos s.high)) (
                  member (codes "medium") (integer (pos s.medium)) (
                    member (codes "low") (integer (pos s.low)) (
                      member (codes "network_exposed_findings") (integer (pos s.exposed_findings))
                        no_members)))))))))

  abbrev pub report_members : List Finding → ScanSummary → Inventory → Members
  report_members findings s inv =
      member (codes "agent")
        (object (
          member (codes "name") (text agent_name) (
            member (codes "version") (text agent_version) (
              member (codes "stage") (text agent_stage)
                (member (codes "platform") (text inv.platform) no_members)))))
        (member (codes "hostname") (text inv.host.hostname) (
          member (codes "os_name") (text inv.host.os_name) (
            member (codes "collected_at_unix_ms") (integer inv.collected_at_unix_ms) (
              member (codes "summary") (object (summary_members s)) (
                member (codes "findings") (array (objects finding_members findings)) (
                  member (codes "unmapped_packages") (array (strings s.unmapped_names))
                    no_members))))))

  findings_lem :
      (fs : List Finding) (w : JsonWriter)
      → each write_finding fs w ≡ write_elements (objects finding_members fs) w
  unfolding write_elements write_members write_value write_finding
  findings_lem [] w = refl
  findings_lem (f ∷ fs) w = findings_lem fs _

  report_calls :
      (findings : List Finding) (s : ScanSummary) (inv : Inventory) (w : JsonWriter)
      → write_report findings s inv w ≡ write_members (report_members findings s inv) w
  unfolding write_report write_members write_value write_scanner write_summary
  report_calls findings s inv w = rw (findings_lem findings, strings_lem s.unmapped_names) refl

  -- findings_to_json writes the text of one well-formed document: the agent, the host, the summary,
  -- one object for each finding in the order of the report, and the unmapped names.
  pub findings_to_json-value_text :
      (findings : List Finding) (s : ScanSummary) (inv : Inventory) (pretty : Bool)
      → findings_to_json findings s inv pretty
        ≡ value_text pretty 0 (object (report_members findings s inv))
  unfolding findings_to_json write_document
  findings_to_json-value_text findings s inv pretty =
      ap (λ (w : JsonWriter). (end_object w).out)
        (report_calls findings s inv (begin_object (json_writer pretty)))
      ∙ write_document-value_text pretty (report_members findings s inv)
