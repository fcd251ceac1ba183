-- ===== src/Diff/Fields.antt =====
-- What `analyzeFieldDifferences` of internal/service/diff/differ.go finds in two traces. A text's code
-- points are those of an ASCII text. `deep_equal` is `reflect.DeepEqual` of two values that are not
-- nil, and `marshal` is `json.Marshal`. Fractions are exact where the source has `float64`.
use Prim.Native.String.{◌++◌ as append}
use sentoris_proxy.Prelude.{
  ℕ, ◌+◌, ◌-◌, ◌*◌, max, Bool, true, false, not, ◌&&◌, ◌||◌, ◌==◌, ltb, Option, none, some, List,
  [], ◌∷◌, ◌++◌, String, codes, contains, str_eq, if◌then◌else◌,
}
use sentoris_proxy.Prelude.Int.{ℤ, pos, ltb_ℤ, scale, ◌-ℤ◌}
use sentoris_proxy.Domain.Value.{Value, null, integer, number, text, Fields, no_fields, field, get}
use sentoris_proxy.Domain.Trace.{Trace}
use sentoris_proxy.Domain.RiskReport.{
  RiskReport, RiskLevel, low, medium, high, ChangeType, value_change, added, removed, Ratio,
  FieldRisk, add_field_risk,
}
use sentoris_proxy.Diff.Levenshtein.{levenshtein_distance, byte_length}

abbrev field_risk :
    (path : String) (old_value new_value : Value) (level : RiskLevel) (confidence : ℕ)
    → ChangeType
    → FieldRisk
field_risk path old_value new_value level confidence change_type = record {
  path = path;
  old_value = old_value;
  new_value = new_value;
  risk_level = level;
  confidence = some confidence;
  change_type = change_type;
}

-- `1.0 - d / m`, where nothing is divided by 0.
unfoldable pub similarity : (edit_distance max_len : ℕ) → Ratio
similarity d m =
    if ltb 0 m
    then record { part = pos m -ℤ pos d; whole = m }
    else record { part = pos 1; whole = 1 }

-- `similarity < k / 10`.
unfoldable pub below : Ratio → ℕ → Bool
below r k = ltb_ℤ (scale 10 r.part) (pos (k * r.whole))

-- The differences of the models, as `AddFieldRisk` is called for them.
unfoldable pub model_risk : Trace → Trace → List FieldRisk
model_risk baseline candidate =
    if str_eq baseline.model candidate.model
    then []
    else field_risk "model" (text baseline.model) (text candidate.model) medium 100 value_change
      ∷ []

unfoldable pub assess_param_risk : String → RiskLevel
assess_param_risk key =
    if contains ("temperature" ∷ ("top_p" ∷ ("max_tokens" ∷ ("stop" ∷ ("system_prompt" ∷ []))))) key
    then medium
    else low

unfoldable pub params_of : Option Fields → Fields
params_of none = no_fields
params_of (some fs) = fs

abbrev names : Fields → List String
names no_fields = []
names (field k v rest) = k ∷ names rest

-- The keys of the first that are left, then those of the second that the first lacks.
unfoldable pub all_keys : List String → List String → List String
all_keys seen [] = []
all_keys seen (k ∷ ks) =
    let rest = all_keys (k ∷ seen) ks in if contains seen k then rest else k ∷ rest

unfoldable pub value_at : String → Fields → Value
value_at key fs = elim (get key fs) [ none ↦ null | some v ↦ v ]

unfoldable pub change_of : String → Fields → Fields → ChangeType
change_of key baseline candidate = elim (get key baseline) [
  | none ↦ added
  | some v ↦ elim (get key candidate) [ none ↦ removed | some w ↦ value_change ]
]

module _ (deep_equal : Value → Value → Bool) (marshal : Value → Option String) where
  same_json : Option String → Option String → Bool
  same_json (some a) (some b) = str_eq a b
  same_json a b = false

  unfoldable pub values_equal : Value → Value → Bool
  unfolding same_json
  values_equal null null = true
  values_equal null b = false
  values_equal a null = false
  values_equal a b = deep_equal a b || same_json (marshal a) (marshal b)

  unfoldable pub param_risks : Fields → Fields → List String → List FieldRisk
  unfolding values_equal assess_param_risk value_at change_of
  param_risks baseline candidate [] = []
  param_risks baseline candidate (key ∷ keys) =
      let rest = param_risks baseline candidate keys in
      if values_equal (value_at key baseline) (value_at key candidate)
      then rest
      else field_risk (append "input.params." key) (value_at key baseline) (value_at key candidate)
          (assess_param_risk key) 95 (change_of key baseline candidate)
        ∷ rest

-- The ratio of two texts.
unfoldable pub text_similarity : (old new : List ℕ) → Ratio
unfolding similarity
text_similarity old new =
    similarity (levenshtein_distance old new) (max (byte_length old) (byte_length new))

-- What the responses' texts say of the risk, where both are not empty.
unfoldable pub similarity_level : List ℕ → List ℕ → RiskLevel
unfolding text_similarity below
similarity_level old new =
    let ratio = text_similarity old new in
    if below ratio 3 then high else if below ratio 7 then medium else low

unfoldable pub response_text : Option String → String
response_text none = ""
response_text (some s) = s

unfoldable pub response_level : Option String → Option String → RiskLevel
unfolding similarity_level
response_level (some old) (some new) =
    if not (str_eq old "") && not (str_eq new "")
    then similarity_level (codes old) (codes new)
    else low
response_level none none = low
response_level old new = high

unfoldable pub response_change : Option String → Option String → ChangeType
response_change none new = added
response_change (some old) none = removed
response_change (some old) (some new) = value_change

response_risk : Option String → Option String → FieldRisk
unfolding response_text response_level response_change
response_risk old new =
    field_risk "output.response" (text (response_text old)) (text (response_text new))
      (response_level old new) 90 (response_change old new)

unfoldable pub response_risks :
    (Value → Value → Bool)
    → (Value → Option String)
    → Option String
    → Option String
    → List FieldRisk
unfolding values_equal response_risk
response_risks deep_equal marshal none none = []
response_risks deep_equal marshal (some old) (some new) =
    if values_equal deep_equal marshal (text old) (text new)
    then []
    else response_risk (some old) (some new) ∷ []
response_risks deep_equal marshal old new = response_risk old new ∷ []

-- `math.Abs(float64(tokenDiff)) > float64(old)*0.5`.
unfoldable pub tokens_risks : (old new : ℕ) → List FieldRisk
tokens_risks old new =
    if old == new
    then []
    else field_risk "observations.tokens_count" (integer (pos old)) (integer (pos new))
        (if ltb old (2 * ((new - old) + (old - new))) then medium else low) 98 value_change
      ∷ []

-- `costDiff / old` against 0.5 and 1.0, where both are above 0.
unfoldable pub cost_level : (old new : ℤ) → RiskLevel
cost_level old new =
    let difference = new -ℤ old in
    if ltb_ℤ (pos 0) difference && ltb_ℤ (pos 0) old
    then if ltb_ℤ old difference
      then high
      else if ltb_ℤ old (scale 2 difference)
      then medium
      else low
    else low

-- The two are equal.
abbrev eq_ℤ : ℤ → ℤ → Bool
eq_ℤ a b = not (ltb_ℤ a b) && not (ltb_ℤ b a)

unfoldable pub cost_risks : (old new : ℤ) → List FieldRisk
unfolding cost_level
cost_risks old new =
    if eq_ℤ old new
    then []
    else field_risk "observations.cost_estimated_usd" (number old) (number new) (cost_level old new)
        98 value_change
      ∷ []

unfoldable pub finish_risks : (old new : String) → List FieldRisk
finish_risks old new =
    if str_eq old new
    then []
    else field_risk "output.finish_reason" (text old) (text new)
        (if (str_eq old "stop" && str_eq new "length") || str_eq new "error" then high else low) 95
        value_change
      ∷ []

unfoldable pub add_field_risks : List FieldRisk → RiskReport → RiskReport
add_field_risks [] r = r
add_field_risks (f ∷ fs) r = add_field_risks fs (add_field_risk f r)

unfoldable pub field_risks :
    (Value → Value → Bool) → (Value → Option String) → Trace → Trace → List FieldRisk
unfolding model_risk params_of all_keys param_risks response_risks tokens_risks cost_risks
    finish_risks
field_risks deep_equal marshal baseline candidate =
    let old = params_of baseline.input.params in
    let new = params_of candidate.input.params in
    model_risk baseline candidate
    ++ (param_risks deep_equal marshal old new (all_keys [] (names old ++ names new))
        ++ (response_risks deep_equal marshal baseline.output.response candidate.output.response
            ++ (tokens_risks baseline.observations.tokens_count candidate.observations.tokens_count
                ++ (cost_risks baseline.observations.cost_estimated_usd
                      candidate.observations.cost_estimated_usd
                    ++ finish_risks baseline.output.finish_reason candidate.output.finish_reason))))

-- `analyzeFieldDifferences`.
unfoldable pub analyze_field_differences :
    (Value → Value → Bool) → (Value → Option String) → Trace → Trace → RiskReport → RiskReport
unfolding add_field_risks field_risks
analyze_field_differences deep_equal marshal baseline candidate =
    add_field_risks (field_risks deep_equal marshal baseline candidate)
