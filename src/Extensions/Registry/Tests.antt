-- ===== src/Extensions/Registry/Tests.antt =====
-- Two extensions, one of which depends on the other; handlers are natural numbers.
use sentoris_proxy.Prelude.{
  ℕ, ◌≡◌, refl, Bool, true, none, List, [], ◌∷◌, String, ok, err, contains, insert, holds, str_eq,
}
use sentoris_proxy.Prelude.Int.{pos}
use sentoris_proxy.Extensions.Registry.{
  Entry, Registry, Version, register, remove, required_by, requires, validate, first_conflict,
  first_missing, first_dependent, get_capabilities,
}
use sentoris_proxy.Extensions.Registry.Laws.{IsClosed, here, next, registers, Reach-IsClosed}

abbrev all_match : String → String → Bool
all_match pattern text = true

abbrev entry : String → List String → Entry ℕ
entry name deps = record {
  namespace = name;
  version = "1.0.0";
  title = "t";
  status = "s";
  maintainer_name = "m";
  maintainer_contact_uri = "u";
  specification_uri = "u";
  min_protocol_version = "";
  dependencies = deps;
  conflicts_with = [];
  capabilities_required = "audit" ∷ [];
  handler = none;
}

abbrev base_only : Registry ℕ
base_only = ("base", entry "base" []) ∷ []

abbrev both : Registry ℕ
both = ("base", entry "base" []) ∷ (("user", entry "user" ("base" ∷ [])) ∷ [])

registers_base : register all_match (entry "base" []) [] ≡ ok base_only
unfolding register validate first_conflict first_missing insert
registers_base = refl

registers_user : register all_match (entry "user" ("base" ∷ [])) base_only ≡ ok both
unfolding register validate first_conflict first_missing insert holds
registers_user = refl

missing_is_refused :
    register all_match (entry "user" ("base" ∷ [])) [] ≡ err (requires "user" "base")
unfolding register validate first_conflict first_missing insert holds
missing_is_refused = refl

required_is_kept : remove "base" both ≡ err (required_by "base" "user")
unfolding remove first_dependent holds contains
required_is_kept = refl

capabilities_once : get_capabilities both ≡ "audit" ∷ []
unfolding get_capabilities contains
capabilities_once = refl

Reach-IsClosed_example : IsClosed both
Reach-IsClosed_example = Reach-IsClosed all_match (
    next (next here (registers (entry "base" []) registers_base))
      (registers (entry "user" ("base" ∷ [])) registers_user))

-- A reader that knows the version 2.0.0 and takes all else for 1.0.0.
abbrev reader : String → Version
reader s = elim (str_eq s "2.0.0") [
  | true ↦ record { major = pos 2; minor = pos 0; patch = pos 0 }
  | _ ↦ record { major = pos 1; minor = pos 0; patch = pos 0 }
]
