-- ===== src/Engagement/Qualification.antt =====
-- apps/execution-worker/src/qualification/qualification-policy.ts
pub mod Score
use vigil_summit_agent.Prelude.{
  ℕ, ◌+◌, String, Bool, true, false, not, ◌&&◌, ◌||◌, Option, none, some, List, [], ◌∷◌, ◌++◌, ◌=ₛ◌,
  map, any, ltb, leb, min, if◌then◌else◌, get_or_else, length,
}
use vigil_summit_agent.Json.{Number, Json, num, str, arr, Items, nil, cons, Fields, get}

-- `QualificationInput`
pub record QualificationInput : Type 0 where
  pub job_title : Option String
  pub seniority : Option String
  pub role_category : Option String
  pub company_industry : Option String
  pub company_employee_range : Option String
  pub security_signals : List String
  pub audience_profile : Option Fields

pub data QualificationStatus : Type 0 where
  qualified review disqualified : QualificationStatus

-- `QualificationResult`, without the constant version
pub record QualificationResult : Type 0 where
  pub status : QualificationStatus
  pub score : ℕ
  pub reason_codes : List String

-- What the policy asks of JavaScript: `trim().toLowerCase()`, `includes`, the first run of digits as a
-- number, the test for the industries, `x > 0` and `n >= x`.
pub record TextOps : Type 0 where
  pub normalize : String → String
  pub contains : String → String → Bool
  pub first_number : String → Option ℕ
  pub is_target_industry : String → Bool
  pub is_positive : Number → Bool
  pub is_at_least : ℕ → Number → Bool

abbrev and_text : String → Option (List String) → Option (List String)
and_text s none = none
and_text s (some ss) = some (s ∷ ss)

abbrev all_texts : Items → Option (List String)
all_texts nil = some []
all_texts (cons (str s) xs) = and_text s (all_texts xs)
all_texts (cons _ xs) = none

-- `readStringArray`
abbrev pub read_string_array : Option Json → List String
read_string_array (some (arr xs)) = get_or_else (all_texts xs) []
read_string_array (some _) = []
read_string_array none = []

abbrev pub profile : QualificationInput → String → Option Json
profile input key = field_of input.audience_profile
  where
    field_of : Option Fields → Option Json
    field_of none = none
    field_of (some fs) = get fs key

abbrev is_text_of : Option String → String → Bool
is_text_of none t = false
is_text_of (some s) t = s =ₛ t

-- The points of one part of the score, with the reason codes that it adds.
abbrev pub Part : Type 0
Part = ℕ × List String

unfoldable pub seniority_part : QualificationInput → Part
seniority_part input =
    if is_text_of input.seniority "EXECUTIVE"
    then (30, "EXECUTIVE_SENIORITY" ∷ [])
    else if is_text_of input.seniority "DIRECTOR"
    then (25, "DIRECTOR_SENIORITY" ∷ [])
    else if is_text_of input.seniority "MANAGER"
    then (15, "MANAGER_SENIORITY" ∷ [])
    else (0, [])

abbrev is_not_empty : String → Bool
is_not_empty s = not (s =ₛ "")

module _ (ops : TextOps) where
  abbrev pub matches_target_role : QualificationInput → Bool
  matches_target_role input =
      let title = ops.normalize (get_or_else input.job_title "") in
      any (λ role. ops.contains title role)
        (map ops.normalize (read_string_array (profile input "targetRoles")))

  unfoldable pub role_part : QualificationInput → Part
  role_part input =
      if matches_target_role input
      then (25, "TARGET_ROLE_MATCH" ∷ [])
      else if is_text_of input.role_category "SECURITY"
          || is_text_of input.role_category "RISK_AND_COMPLIANCE"
      then (20, "RELEVANT_ROLE_CATEGORY" ∷ [])
      else (0, [])

  -- `readPositiveNumber`
  abbrev pub read_positive_number : Option Json → Option Number
  read_positive_number (some (num n)) = if ops.is_positive n then some n else none
  read_positive_number (some _) = none
  read_positive_number none = none

  -- `parseEmployeeRangeMinimum`
  abbrev pub parse_employee_range_minimum : Option String → Option ℕ
  parse_employee_range_minimum none = none
  parse_employee_range_minimum (some s) = if is_not_empty s then ops.first_number s else none

  abbrev pub compare_size : Option Number → Option ℕ → Part
  compare_size (some least) (some n) =
      if ops.is_at_least n least
      then (25, "COMPANY_SIZE_MATCH" ∷ [])
      else (0, "COMPANY_BELOW_TARGET_SIZE" ∷ [])
  compare_size (some least) none = (0, "COMPANY_SIZE_UNKNOWN" ∷ [])
  compare_size none n = (0, "COMPANY_SIZE_UNKNOWN" ∷ [])

  unfoldable pub size_part : QualificationInput → Part
  size_part input =
      compare_size (read_positive_number (profile input "companyMinimumEmployees"))
        (parse_employee_range_minimum input.company_employee_range)

  abbrev in_target_industry : Option String → Bool
  in_target_industry none = false
  in_target_industry (some s) = is_not_empty s && ops.is_target_industry s

  unfoldable pub industry_part : QualificationInput → Part
  industry_part input =
      if in_target_industry input.company_industry
      then (10, "REGULATED_OR_TECH_INDUSTRY" ∷ [])
      else (0, [])

  unfoldable pub signal_part : QualificationInput → Part
  signal_part input =
      if ltb 0 (length input.security_signals)
      then (10, "SECURITY_INTEREST_SIGNAL" ∷ [])
      else (0, [])

  unfoldable pub total_score : QualificationInput → ℕ
  total_score input =
      (seniority_part input).0
      + (role_part input).0
      + (size_part input).0
      + (industry_part input).0
      + (signal_part input).0

  unfoldable pub status_of_score : ℕ → QualificationStatus
  status_of_score score =
      if leb 70 score then qualified else if leb 40 score then review else disqualified

  -- `qualifyLead`
  unfoldable pub qualify_lead : QualificationInput → QualificationResult
  qualify_lead input = record {
    status = status_of_score (min 100 (total_score input));
    score = min 100 (total_score input);
    reason_codes =
        (seniority_part input).1
        ++ (role_part input).1
        ++ (size_part input).1
        ++ (industry_part input).1
        ++ (signal_part input).1;
  }
