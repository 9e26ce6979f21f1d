-- ===== src/Engagement/Qualification/Score.antt =====
-- The score of `qualifyLead` and what it takes to be qualified.
use vigil_summit_agent.Prelude.{◌+◌, ℕ, ◌≤◌, ◌<◌, Option, none, some, ◌≡◌, ◌↔◌, arith}
use vigil_summit_agent.Json.{Number}
use vigil_summit_agent.Engagement.Qualification.{
  QualificationInput, qualified, disqualified, TextOps, seniority_part, role_part, compare_size,
  size_part, industry_part, signal_part, total_score, status_of_score, qualify_lead,
}

seniority-le : (input : QualificationInput) → (seniority_part input).0 ≤ 30
unfolding seniority_part
seniority-le input = ground arith

module _ (ops : TextOps) (input : QualificationInput) where
  role-le : (role_part ops input).0 ≤ 25
  unfolding role_part
  role-le = ground arith

  compare-le : (least : Option Number) (n : Option ℕ) → (compare_size ops least n).0 ≤ 25
  compare-le (some least) (some n) = ground arith
  compare-le (some least) none = omega arith
  compare-le none n = omega arith

  size-le : (size_part ops input).0 ≤ 25
  unfolding size_part
  size-le = compare-le _ _

  industry-le : (industry_part ops input).0 ≤ 10
  unfolding industry_part
  industry-le = ground arith

  signal-le : (signal_part ops input).0 ≤ 10
  unfolding signal_part
  signal-le = ground arith

  industry-full : 0 < (industry_part ops input).0 → (industry_part ops input).0 ≡ 10
  unfolding industry_part
  industry-full h = ground (arith, h)

  signal-full : 0 < (signal_part ops input).0 → (signal_part ops input).0 ≡ 10
  unfolding signal_part
  signal-full h = ground (arith, h)

  total-le : total_score ops input ≤ 100
  unfolding total_score
  total-le = omega (arith, seniority-le input, role-le, size-le, industry-le, signal-le)

  -- The score is the sum of the points for the seniority, the role, the size, the industry and the
  -- security signals, which are at most 30, 25, 25, 10 and 10, so that the bound of 100 on the score
  -- changes nothing; and the status is qualified exactly from 70 points on, and disqualified exactly
  -- below 40.
  pub qualify_lead-score :
      ((qualify_lead ops input).score
        ≡ (seniority_part input).0
          + (role_part ops input).0
          + (size_part ops input).0
          + (industry_part ops input).0
          + (signal_part ops input).0)
      × ((seniority_part input).0 ≤ 30)
      × ((role_part ops input).0 ≤ 25)
      × ((size_part ops input).0 ≤ 25)
      × ((industry_part ops input).0 ≤ 10)
      × ((signal_part ops input).0 ≤ 10)
      × (((qualify_lead ops input).status ≡ qualified) ↔ (70 ≤ (qualify_lead ops input).score))
      × (((qualify_lead ops input).status ≡ disqualified) ↔ ((qualify_lead ops input).score < 40))
  unfolding qualify_lead status_of_score total_score
  qualify_lead-score = (
    omega (arith, seniority-le input, role-le, size-le, industry-le, signal-le),
    seniority-le input,
    role-le,
    size-le,
    industry-le,
    signal-le,
    ((λ h. ground (arith, h)), (λ h. ground (arith, h))),
    ((λ h. ground (arith, h)), (λ h. ground (arith, h))),
  )

  -- Where the size of the company adds no points, a qualified lead has at least the 25 points of a
  -- director for its seniority, at least the 20 points of a relevant role category for its role, and the
  -- 10 points each of a target industry and of a security signal.
  pub qualify_lead-small :
      (size_part ops input).0 ≡ 0
      → (qualify_lead ops input).status ≡ qualified
      → (25 ≤ (seniority_part input).0)
        × (20 ≤ (role_part ops input).0)
        × ((industry_part ops input).0 ≡ 10)
        × ((signal_part ops input).0 ≡ 10)
  unfolding qualify_lead status_of_score total_score
  qualify_lead-small small h =
      let enough : 70 ≤ total_score ops input = ground (arith, total-le, h) in
      (
        omega (arith, small, enough, role-le, industry-le, signal-le),
        omega (arith, small, enough, seniority-le input, industry-le, signal-le),
        industry-full (omega (arith, small, enough, seniority-le input, role-le, signal-le)),
        signal-full (omega (arith, small, enough, seniority-le input, role-le, industry-le)),
      )
