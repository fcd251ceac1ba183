-- ===== src/Transport/Headers.antt =====
-- internal/transport/http/sentoris_headers.go. `get` is the request's `Header.Get`; `strconv`'s
-- readers of numbers are parameters, a budget being read as an amount in millionths of a dollar.
pub mod Laws
mod Tests
use sentoris_proxy.Prelude.{
  Bool, true, false, not, ◌||◌, Option, none, some, List, [], ◌∷◌, map, String, str_eq, contains,
  if◌then◌else◌,
}
use sentoris_proxy.Prelude.Int.{ℤ, pos, ltb_ℤ}
use sentoris_proxy.Prelude.Texts.{split, trim_space}
use sentoris_proxy.Governance.Constraints.{
  Constraints, hard_stop, degrade_model, soft_alert, privacy_raw, privacy_masked, privacy_hash_only,
  reproducibility_bounded,
}

-- `AcceptedCapabilities` is written and read by nothing, and is left out.
pub record SentorisHeaders : Type 0 where
  pub version : String
  pub capabilities : List String
  pub action : String
  pub baseline_ref : String
  pub budget_limit : ℤ
  pub budget_strategy : String
  pub privacy_level : String
  pub diff_output : Bool
  pub focus_fields : List String
  pub override_model : String
  pub seed : Option ℤ
  pub repeatability : Bool
  pub repeatability_id : String

trim_all : List String → List String
trim_all [] = []
trim_all (c ∷ cs) = trim_space c ∷ trim_all cs

keep_named : List String → List String
keep_named [] = []
keep_named (c ∷ cs) = let rest = keep_named cs in if str_eq c "" then rest else c ∷ rest

unfoldable pub parse_capabilities : String → List String
unfolding trim_all keep_named split
parse_capabilities s = if str_eq s "" then [] else keep_named (trim_all (split b',' s))

unfoldable pub read_strategy : String → String
read_strategy s =
    if str_eq s hard_stop || (str_eq s degrade_model || str_eq s soft_alert) then s else hard_stop

unfoldable pub read_privacy : String → String
read_privacy s =
    if str_eq s privacy_raw || (str_eq s privacy_masked || str_eq s privacy_hash_only)
    then s
    else privacy_raw

or_zero : Option ℤ → ℤ
or_zero none = pos 0
or_zero (some a) = a

unfoldable pub parse_sentoris_headers :
    (parse_float parse_int : String → Option ℤ) → (get : String → String) → SentorisHeaders
unfolding or_zero trim_all
parse_sentoris_headers parse_float parse_int get =
    let version = get "Sentoris-Version" in
    let budget = get "Sentoris-Budget-Limit" in
    let focus = get "Sentoris-Focus-Fields" in
    let seed = get "Sentoris-Seed" in
    record {
      version = if str_eq version "" then "1.0" else version;
      capabilities = parse_capabilities (get "Sentoris-Capabilities");
      action = get "Sentoris-Action";
      baseline_ref = get "Sentoris-Baseline-Ref";
      budget_limit = if str_eq budget "" then pos 0 else or_zero (parse_float budget);
      budget_strategy = read_strategy (get "Sentoris-Budget-Strategy");
      privacy_level = read_privacy (get "Sentoris-Privacy-Level");
      diff_output = str_eq (get "Sentoris-Diff-Output") "true";
      focus_fields = if str_eq focus "" then [] else trim_all (split b',' focus);
      override_model = get "Sentoris-Override-Model";
      seed = if str_eq seed "" then none else parse_int seed;
      repeatability = str_eq (get "Sentoris-Repeatability") "true";
      repeatability_id = get "Sentoris-Repeatability-ID";
    }

unfoldable pub negotiate_capabilities : (requested supported : List String) → List String
negotiate_capabilities [] supported = []
negotiate_capabilities (r ∷ rs) supported =
    let rest = negotiate_capabilities rs supported in
    if contains supported r then r ∷ rest else rest

abbrev pub supported_versions : List String
supported_versions = "1.0" ∷ ("1.0.0" ∷ [])

unfoldable pub is_version_supported : SentorisHeaders → Bool
is_version_supported h = contains supported_versions h.version

unfoldable pub negotiate_version : String → String × Bool
negotiate_version requested =
    if contains supported_versions requested then (requested, true) else ("1.0", false)

unfoldable pub get_negotiated_capabilities : SentorisHeaders → List String → List String
get_negotiated_capabilities h supported = negotiate_capabilities h.capabilities supported

unfoldable pub to_constraints : SentorisHeaders → Constraints
to_constraints h = record {
  budget =
      if ltb_ℤ (pos 0) h.budget_limit
      then some (record { limit_usd = h.budget_limit; strategy = h.budget_strategy })
      else none;
  privacy =
      if str_eq h.privacy_level privacy_raw
      then none
      else some (record {
        level = h.privacy_level;
        strategy = "";
        masked_fields = [];
        deterministic = false;
      });
  reproducibility =
      if elim h.seed [ none ↦ h.repeatability | some s ↦ true ]
      then some (record { mode = reproducibility_bounded; seed = h.seed })
      else none;
}
