-- ===== src/Catalog/Examples.antt =====
-- Tool names: tests, and the theorems at concrete names.
use keidai.Common.{◌≡◌, refl, ◌↔◌, none, some}
use keidai.Catalog.{
  NamespacedTool, namespace_tool, parse_namespaced_tool, parse_namespaced_tool_name,
}
use keidai.Catalog.Laws.{IsNamespaced, parse_namespaced_tool_iff}

abbrev send_mail : NamespacedTool
send_mail = record { server = "mail"; bare_name = "send.v2" }

parses : parse_namespaced_tool "mail.send.v2" ≡ some send_mail
unfolding parse_namespaced_tool
parses = refl

-- A tool on two lines is no tool to the gate, and the tool of a server to the policy.
two_lines :
    (parse_namespaced_tool "mail.send\nnow" ≡ none)
    × (parse_namespaced_tool_name "mail.send\nnow"
        ≡ record { server = "mail"; bare_name = "send\nnow" })
unfolding parse_namespaced_tool parse_namespaced_tool_name
two_lines = (refl, refl)

parse_namespaced_tool_iff_example :
    (parse_namespaced_tool "mail.send.v2" ≡ some send_mail)
    ↔ (("mail.send.v2" ≡ namespace_tool "mail" "send.v2") × IsNamespaced send_mail)
parse_namespaced_tool_iff_example = parse_namespaced_tool_iff "mail.send.v2" send_mail
