-- ===== src/Extensions/Registry.antt =====
-- internal/service/extensions/registry.go. Regular expressions and `fmt.Sscanf` are the standard
-- library's: matching a pattern and reading the three numbers of a version are parameters. Of an
-- entry the fields are kept that the code reads; `H` is the type of its handler.
pub mod Laws
pub mod Versions
mod Tests
use sentoris_proxy.Prelude.{
  Bool, true, false, not, ◌&&◌, ◌||◌, Option, none, some, List, [], ◌∷◌, ◌++◌, String, Result, ok,
  err, ◌>>=◌, ◌>>◌, guard, str_eq, contains, Map, lookup, insert, delete, holds, values,
  if◌then◌else◌,
}
use sentoris_proxy.Prelude.Int.{ℤ, pos, ◌-ℤ◌, leb_ℤ}

pub record Entry (H : Type 0) : Type 0 where
  pub namespace : String
  pub version : String
  pub title : String
  pub status : String
  pub maintainer_name : String
  pub maintainer_contact_uri : String
  pub specification_uri : String
  pub min_protocol_version : String
  pub dependencies : List String
  pub conflicts_with : List String
  pub capabilities_required : List String
  pub handler : Option H

pub data RegistryError : Type 0 where
  invalid_namespace : String → RegistryError
  invalid_version : String → RegistryError
  title_required status_required maintainer_name_required : RegistryError
  contact_uri_required specification_uri_required : RegistryError
  conflicts : String → String → RegistryError
  requires : String → String → RegistryError
  extension_not_found : String → RegistryError
  required_by : String → String → RegistryError
  no_handler : String → RegistryError

abbrev pub namespace_pattern : String
namespace_pattern = "^sentoris\\.ai/v[0-9]+/[a-z0-9_-]+$"

abbrev pub version_pattern : String
version_pattern = "^[0-9]+\\.[0-9]+\\.[0-9]+$"

abbrev pub Registry : Type 0 → Type 0
Registry H = Map (Entry H)

non_empty : String → Bool
non_empty s = not (str_eq s "")

refuse_conflict : String → Option String → Result RegistryError (Unit {0})
refuse_conflict namespace none = ok tt
refuse_conflict namespace (some c) = err (conflicts namespace c)

refuse_missing : String → Option String → Result RegistryError (Unit {0})
refuse_missing namespace none = ok tt
refuse_missing namespace (some d) = err (requires namespace d)

or_not_found : {A : Type 0} → String → Option A → Result RegistryError A
or_not_found namespace none = err (extension_not_found namespace)
or_not_found namespace (some a) = ok a

-- The inner and the outer loop of `GetCapabilities`, with the capabilities seen so far.
pub add_capabilities : List String → List String → List String
add_capabilities seen [] = seen
add_capabilities seen (c ∷ cs) =
    add_capabilities (if contains seen c then seen else seen ++ (c ∷ [])) cs

module _ {H : Type 0} where
  -- The two loops of `Register`: the first conflict that is registered, and the first dependency that
  -- is not.
  unfoldable pub first_conflict : List String → Registry H → Option String
  first_conflict [] r = none
  first_conflict (c ∷ cs) r = let rest = first_conflict cs r in if holds c r then some c else rest

  unfoldable pub first_missing : List String → Registry H → Option String
  first_missing [] r = none
  first_missing (d ∷ ds) r = let rest = first_missing ds r in if holds d r then rest else some d

  -- The first entry that depends on the namespace.
  unfoldable pub first_dependent : String → Registry H → Option (Entry H)
  first_dependent namespace [] = none
  first_dependent namespace ((k, e) ∷ r) =
      let rest = first_dependent namespace r in
      if contains e.dependencies namespace then some e else rest

  refuse_dependent : String → Option (Entry H) → Result RegistryError (Unit {0})
  refuse_dependent namespace none = ok tt
  refuse_dependent namespace (some e) = err (required_by namespace e.namespace)

  pub get_entry : Registry H → String → Option (Entry H)
  get_entry r namespace = lookup namespace r

  unfoldable pub remove : String → Registry H → Result RegistryError (Registry H)
  unfolding refuse_dependent
  remove namespace r = do
    guard (holds namespace r) (extension_not_found namespace)
    refuse_dependent namespace (first_dependent namespace r)
    ok (delete namespace r)

  pub capabilities_from : List String → Registry H → List String
  unfolding add_capabilities
  capabilities_from seen [] = seen
  capabilities_from seen ((k, e) ∷ r) =
      capabilities_from (add_capabilities seen e.capabilities_required) r

  pub get_capabilities : Registry H → List String
  unfolding capabilities_from
  get_capabilities r = capabilities_from [] r

  pub filter_by_capability : Registry H → String → List (Entry H)
  filter_by_capability [] capability = []
  filter_by_capability ((k, e) ∷ r) capability =
      let rest = filter_by_capability r capability in
      if contains e.capabilities_required capability then e ∷ rest else rest

  handler_of : String → Option H → Result RegistryError H
  handler_of namespace none = err (no_handler namespace)
  handler_of namespace (some h) = ok h

  -- What both calls of an extension begin with: the handler that they call, or the error.
  pub execute_extension : Registry H → String → Result RegistryError H
  unfolding handler_of or_not_found
  execute_extension r namespace = do
    e ← or_not_found namespace (lookup namespace r)
    handler_of namespace e.handler

  pub get_extension_handler : Registry H → String → Option H
  get_extension_handler r namespace = elim (lookup namespace r) [ none ↦ none | some e ↦ e.handler ]

  keep_or_stop :
      (Registry H → Registry H × Option RegistryError)
      → Registry H
      → Result RegistryError (Registry H)
      → Registry H × Option RegistryError
  keep_or_stop again r (ok r') = again r'
  keep_or_stop again r (err e) = (r, some e)

  module _ (matches : (pattern text : String) → Bool) where
    unfoldable pub validate : Entry H → Result RegistryError (Unit {0})
    unfolding non_empty
    validate e = do
      guard (matches namespace_pattern e.namespace) (invalid_namespace e.namespace)
      guard (matches version_pattern e.version) (invalid_version e.version)
      guard (non_empty e.title) title_required
      guard (non_empty e.status) status_required
      guard (non_empty e.maintainer_name) maintainer_name_required
      guard (non_empty e.maintainer_contact_uri) contact_uri_required
      guard (non_empty e.specification_uri) specification_uri_required

    unfoldable pub register : Entry H → Registry H → Result RegistryError (Registry H)
    unfolding refuse_conflict refuse_missing
    register e r = do
      validate e
      refuse_conflict e.namespace (first_conflict e.conflicts_with r)
      refuse_missing e.namespace (first_missing e.dependencies r)
      ok (insert e.namespace e r)

    -- The loop of `LoadFromConfig` over the entries that were decoded: what was registered before an
    -- error stays registered.
    pub load_entries : List (Entry H) → Registry H → Registry H × Option RegistryError
    unfolding keep_or_stop
    load_entries [] r = (r, none)
    load_entries (e ∷ es) r = keep_or_stop (λ r'. load_entries es r') r (register e r)

-- The components of a version, as `Sscanf` leaves them.
pub record Version : Type 0 where
  pub major : ℤ
  pub minor : ℤ
  pub patch : ℤ

same : ℤ → ℤ → Bool
same a b = leb_ℤ a b && leb_ℤ b a

-- `compareVersions`, on the versions that were read.
unfoldable pub compare_versions : Version → Version → ℤ
unfolding same
compare_versions v w =
    if not (same v.major w.major)
    then v.major -ℤ w.major
    else if not (same v.minor w.minor)
    then v.minor -ℤ w.minor
    else v.patch -ℤ w.patch

pub min_version : String → String
min_version s = if str_eq s "" then "1.0.0" else s

module _ {H : Type 0} (read_version : String → Version) where
  unfoldable pub get_compatible_extensions : Registry H → String → List (Entry H)
  unfolding min_version
  get_compatible_extensions [] protocol = []
  get_compatible_extensions ((k, e) ∷ r) protocol =
      let rest = get_compatible_extensions r protocol in
      if leb_ℤ (pos 0) (
        compare_versions (read_version protocol)
          (read_version (min_version e.min_protocol_version)))
      then e ∷ rest
      else rest
