-- ===== src/Catalog/Laws.antt =====
-- The two parsers of a tool's name against the printer, and against each other.
use Prim.Native.Char.{Char, code}
use Prim.Native.String.{[], ◌∷◌, ◌++◌}
use text.Mathlib.TextLemmas.{nil-append, cons-append}
use text.Mathlib.TextEquality.{Char-path}
use mathlib.Core.Path.{subst}
use mathlib.Core.Option.{some-injective}
use keidai.Common.{
  String, ◌≡◌, refl, ◌≢◌, ◌↔◌, inl, inr, true, false, some, arith, ◌==◌, ap, Option-cases,
  Bool-cases,
}
use keidai.Catalog.{
  NamespacedTool, namespace_tool, is_line_terminator, matches_dots, is_empty, split_first_dot,
  parse_namespaced_tool, parse_namespaced_tool_name,
}

abbrev pub HasNoDot : String → Type 0
HasNoDot [] = Unit
HasNoDot (c ∷ s) = (code c ≢ b'.') × HasNoDot s

abbrev pub HasNoLineTerminator : String → Type 0
HasNoLineTerminator [] = Unit
HasNoLineTerminator (c ∷ s) = (is_line_terminator (code c) ≡ false) × HasNoLineTerminator s

dot-append :
    (s : String) → split_first_dot ("." ++ s) ≡ some (record { server = ""; bare_name = s })
unfolding split_first_dot
dot-append s = rw (cons-append, nil-append)

split_first_dot-namespace :
    (server bare : String)
    → HasNoDot server
    → split_first_dot (server ++ "." ++ bare) ≡ some (record { server = server; bare_name = bare })
unfolding split_first_dot
split_first_dot-namespace [] bare h = rw nil-append (dot-append bare)
split_first_dot-namespace (c ∷ s) bare (p, h) =
    rw cons-append (ground (arith, split_first_dot-namespace s bare h))

-- A split that gives the name back, and whose server has no dot.
abbrev IsSplit : String → NamespacedTool → Type 0
IsSplit name t = (name ≡ t.server ++ "." ++ t.bare_name) × HasNoDot t.server

IsSplit-dot :
    (c : Char) (s : String)
    → code c ≡ b'.'
    → IsSplit (c ∷ s) (record { server = ""; bare_name = s })
IsSplit-dot c s e =
    (rw (nil-append, cons-append, nil-append) (ap (λ d. d ∷ s) (Char-path c _ e)), tt)

IsSplit-cons :
    (c : Char) (s : String) (u : NamespacedTool)
    → code c ≢ b'.'
    → IsSplit s u
    → IsSplit (c ∷ s) (record u { server = c ∷ u.server })
IsSplit-cons c s u p (e, h) = (rw cons-append (ap (λ r. c ∷ r) e), (p, h))

split_first_dot-IsSplit :
    (name : String) (t : NamespacedTool) → split_first_dot name ≡ some t → IsSplit name t
unfolding split_first_dot
split_first_dot-IsSplit [] t e = cc
split_first_dot-IsSplit (c ∷ s) t e = elim (Bool-cases (code c == b'.')) [
  | inl dot ↦
      subst (IsSplit (c ∷ s))
        (some-injective (record { server = ""; bare_name = s }) t (ground (arith, dot)))
        (IsSplit-dot c s (ground arith))
  | inr other ↦ elim (Option-cases (split_first_dot s)) [
    | inl missing ↦ absurd (ground arith)
    | inr (u, found) ↦
        subst (IsSplit (c ∷ s))
          (some-injective (record u { server = c ∷ u.server }) t (ground (arith, other, found)))
          (IsSplit-cons c s u (ground arith) (split_first_dot-IsSplit s u found))
  ]
]

matches_dots_iff : (s : String) → (matches_dots s ≡ true) ↔ HasNoLineTerminator s
unfolding matches_dots
matches_dots_iff [] = ground arith
matches_dots_iff (c ∷ s) = ground (arith, matches_dots_iff s)

is_empty_iff : (s : String) → (is_empty s ≡ false) ↔ (s ≢ "")
is_empty_iff [] = ((λ h. cc), (λ h. absurd (h refl)))
is_empty_iff (c ∷ s) = ((λ _ e. cc), (λ _. refl))

-- What a name has to be to be read as a server and a tool.
pub record IsNamespaced (t : NamespacedTool) : Type 0 where
  pub server_no_dot : HasNoDot t.server
  pub server_nonempty : t.server ≢ ""
  pub bare_nonempty : t.bare_name ≢ ""
  pub bare_one_line : HasNoLineTerminator t.bare_name

-- `parseNamespacedTool` reads a name as a server and a tool exactly when the name is what
-- `namespaceTool` prints for them, the server is not empty and has no dot, and the tool is not empty
-- and has no line terminator.
pub parse_namespaced_tool_iff :
    (name : String) (t : NamespacedTool)
    → (parse_namespaced_tool name ≡ some t)
      ↔ ((name ≡ namespace_tool t.server t.bare_name) × IsNamespaced t)
unfolding parse_namespaced_tool namespace_tool
parse_namespaced_tool_iff name t = (to, from)
  where
    to :
        parse_namespaced_tool name ≡ some t
        → (name ≡ namespace_tool t.server t.bare_name) × IsNamespaced t
    to h = ground (
      arith,
      split_first_dot-IsSplit name t,
      matches_dots_iff t.bare_name,
      is_empty_iff t.server,
      is_empty_iff t.bare_name,
    )

    from :
        (name ≡ namespace_tool t.server t.bare_name) × IsNamespaced t
        → parse_namespaced_tool name ≡ some t
    from (e, v) = rw e (
        ground (
          arith,
          split_first_dot-namespace t.server t.bare_name v.server_no_dot,
          matches_dots_iff t.bare_name,
          is_empty_iff t.server,
          is_empty_iff t.bare_name,
        ))

-- Where the approval gate reads a name at all, the policy and the trace read the same server and
-- tool from it.
pub parse_namespaced_tool_name_agrees :
    (name : String) (t : NamespacedTool)
    → parse_namespaced_tool name ≡ some t
    → parse_namespaced_tool_name name ≡ t
unfolding parse_namespaced_tool parse_namespaced_tool_name
parse_namespaced_tool_name_agrees name t h = ground arith
