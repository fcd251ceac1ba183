-- ===== src/Governance/Deprecation.antt =====
-- internal/service/deprecation/deprecation.go. The notices are kept in the order in which the map of them
-- is iterated, and the one manager of the program is a parameter of what reads it.
mod Tests
use Prim.Native.String.{◌++◌ as append}
use sentoris_proxy.Prelude.{
  Option, List, [], ◌∷◌, String, str_eq, Map, lookup, insert, if◌then◌else◌,
}

pub record DeprecationNotice : Type 0 where
  pub deprecated_since : String
  pub removed_in : String
  pub replacement : String
  pub description : String

unfoldable pub register_deprecation :
    String → DeprecationNotice → Map DeprecationNotice → Map DeprecationNotice
register_deprecation name notice notices = insert name notice notices

-- Nil for a field without a notice.
unfoldable pub get_deprecation_notice : String → Map DeprecationNotice → Option DeprecationNotice
get_deprecation_notice name notices = lookup name notices

-- A copy of the map.
unfoldable pub get_all_notices : Map DeprecationNotice → Map DeprecationNotice
get_all_notices [] = []
get_all_notices ((name, notice) ∷ notices) = (name, notice) ∷ get_all_notices notices

concat : List String → String
concat [] = ""
concat (s ∷ ss) = append s (concat ss)

unfoldable pub notice_text : String → DeprecationNotice → String
unfolding concat
notice_text name notice =
    if str_eq notice.replacement ""
    then concat (
        "Field \""
        ∷ (name
            ∷ ("\" is deprecated since "
                ∷ (notice.deprecated_since
                    ∷ (". Will be removed in "
                        ∷ (notice.removed_in ∷ (". " ∷ (notice.description ∷ []))))))))
    else concat (
        "Field \""
        ∷ (name
            ∷ ("\" is deprecated since "
                ∷ (notice.deprecated_since
                    ∷ (", use \""
                        ∷ (notice.replacement
                            ∷ ("\" instead. Will be removed in "
                                ∷ (notice.removed_in ∷ ("." ∷ [])))))))))

-- `strings.Join(notices, " | ")`.
unfoldable pub generate_header : Map DeprecationNotice → String
unfolding notice_text
generate_header [] = ""
generate_header ((name, notice) ∷ []) = notice_text name notice
generate_header ((name, notice) ∷ (second ∷ notices)) =
    append (notice_text name notice) (append " | " (generate_header (second ∷ notices)))

unfoldable pub initialize_default_notices : Map DeprecationNotice → Map DeprecationNotice
unfolding register_deprecation
initialize_default_notices notices =
    register_deprecation "reproducibility_mode"
      (record {
        deprecated_since = "v1.2.0";
        removed_in = "v2.0.0";
        replacement = "reproducibility.mode";
        description = "";
      })
      (register_deprecation "privacy_level"
        (record {
          deprecated_since = "v1.2.0";
          removed_in = "v2.0.0";
          replacement = "privacy.level";
          description = "";
        })
        (register_deprecation "budget_limit"
          (record {
            deprecated_since = "v1.1.0";
            removed_in = "v2.0.0";
            replacement = "budget.limit_usd";
            description = "";
          })
          notices))
