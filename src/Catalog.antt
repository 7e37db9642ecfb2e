-- ===== src/Catalog.antt =====
-- Names of tools: apps/torii/src/catalog/utils/namespacing.ts, which the catalog and the approval
-- gate use, and apps/torii/src/trace/utils/parse-namespaced-tool-name.ts, by which a dispatched call
-- is put to the policy and traced. A name is read character by character.
pub mod Laws
mod Examples
use Prim.Native.Char.{Char, code}
use Prim.Native.String.{[], ◌∷◌, ◌++◌}
use keidai.Common.{ℕ, String, Bool, true, false, ◌||◌, Option, none, some, if◌then◌else◌, ◌==◌}

pub record NamespacedTool : Type 0 where
  pub server : String
  pub bare_name : String

-- `${server}.${bareName}`
unfoldable pub namespace_tool : String → String → String
namespace_tool server bare_name = server ++ "." ++ bare_name

-- The characters that `.` does not match in a pattern without the flag `s`.
abbrev pub is_line_terminator : ℕ → Bool
is_line_terminator c = c == 10 || c == 13 || c == 0x2028 || c == 0x2029

-- `(.+)$` on what is left: no line terminator, and (in the caller) not empty.
unfoldable pub matches_dots : String → Bool
matches_dots [] = true
matches_dots (c ∷ s) = if is_line_terminator (code c) then false else matches_dots s

abbrev pub is_empty : String → Bool
is_empty [] = true
is_empty (_ ∷ _) = false

-- `/^([^.]+)\.(.+)$/`: what precedes the first dot, and what follows it.
unfoldable pub split_first_dot : String → Option NamespacedTool
split_first_dot [] = none
split_first_dot (c ∷ s) =
    if code c == b'.'
    then some (record { server = ""; bare_name = s })
    else elim (split_first_dot s) [
      | none ↦ none
      | some t ↦ some (record t { server = c ∷ t.server })
    ]

unfoldable pub parse_namespaced_tool : String → Option NamespacedTool
unfolding split_first_dot matches_dots
parse_namespaced_tool name = elim (split_first_dot name) [
  | none ↦ none
  | some t ↦
      if is_empty t.server || is_empty t.bare_name
      then none
      else if matches_dots t.bare_name
      then some t
      else none
]

-- `indexOf(".")` and the two slices; a name without a dot is a tool of the server "unknown".
unfoldable pub parse_namespaced_tool_name : String → NamespacedTool
unfolding split_first_dot
parse_namespaced_tool_name name = elim (split_first_dot name) [
  | none ↦ record { server = "unknown"; bare_name = name }
  | some t ↦ t
]
