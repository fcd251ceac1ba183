-- ===== src/Governance/Deprecation/Tests.antt =====
-- The default notices, and headers with and without them.
use sentoris_proxy.Prelude.{◌≡◌, refl, none, [], lookup, insert}
use sentoris_proxy.Governance.Deprecation.{
  DeprecationNotice, generate_header, get_deprecation_notice, initialize_default_notices,
  register_deprecation,
}

no_header : generate_header [] ≡ ""
unfolding generate_header
no_header = refl

abbrev old_notice : DeprecationNotice
old_notice = record {
  deprecated_since = "v1";
  removed_in = "v2";
  replacement = "";
  description = "Gone.";
}

one_notice :
    generate_header (register_deprecation "f" old_notice [])
    ≡ "Field \"f\" is deprecated since v1. Will be removed in v2. Gone."
unfolding generate_header register_deprecation insert
one_notice = refl

unknown_field : get_deprecation_notice "f" (initialize_default_notices []) ≡ none
unfolding get_deprecation_notice initialize_default_notices register_deprecation insert lookup
unknown_field = refl
