-- ===== src/Accounts/Quota.antt =====
-- The quota of an account in the answer of the web application: `_num` and `_quota_from_plan_status` of
-- devin_proxy/accounts.py. Numbers are natural; how a text is read as one is a parameter.
use devin_proxy.Prelude.{Text, codes, Option, none, some, List, [], ◌∷◌}
use devin_proxy.Data.{Json, Fields, null, num, str, end, field, get, if_truthy}

-- `d.get(camel) or d.get(snake)`
abbrev pub either : Text → Text → Fields → Option Json
either camel snake d = elim (if_truthy (get camel d)) [ some j ↦ some j | none ↦ get snake d ]

-- A field, unless its value is `None`.
abbrev pub unless_none : Text → Option Json → Fields → Fields
unless_none k none rest = rest
unless_none k (some null) rest = rest
unless_none k (some j) rest = field k j rest

module _ (number : Text → Option Json) where
  abbrev pub as_number : Option Json → Option Json
  as_number (some (num n)) = some (num n)
  as_number (some (str t)) = number t
  as_number _ = none

  -- `_num`: the first key that holds a number
  unfoldable pub num_at : Fields → List Text → Option Json
  unfolding get
  num_at d [] = none
  num_at d (k ∷ ks) = elim (as_number (get k d)) [ some j ↦ some j | none ↦ num_at d ks ]

  abbrev pub count : Text → Text → Text → Fields → Fields → Fields
  count k camel snake ps rest = unless_none k (num_at ps (camel ∷ snake ∷ [])) rest

  abbrev pub value : Text → Text → Text → Fields → Fields → Fields
  value k camel snake d rest = unless_none k (either camel snake d) rest

  -- The snapshot of a plan's status that is not empty.
  unfoldable pub quota_of : Fields → Fields → Fields
  unfolding num_at get
  quota_of ps pi = value (codes "plan_name") (codes "planName") (codes "plan_name") pi (
      value (codes "tier") (codes "teamsTier") (codes "teams_tier") pi (
        value (codes "billing") (codes "billingStrategy") (codes "billing_strategy") pi (
          count (codes "daily_pct") (codes "dailyQuotaRemainingPercent")
            (codes "daily_quota_remaining_percent") ps
            (count (codes "weekly_pct") (codes "weeklyQuotaRemainingPercent")
              (codes "weekly_quota_remaining_percent") ps
              (count (codes "acu_used") (codes "acuConsumed") (codes "acu_consumed") ps (
                count (codes "acu_limit") (codes "acuLimit") (codes "acu_limit") ps (
                  count (codes "daily_reset") (codes "dailyQuotaResetAtUnix")
                    (codes "daily_quota_reset_at_unix") ps
                    (count (codes "weekly_reset") (codes "weeklyQuotaResetAtUnix")
                      (codes "weekly_quota_reset_at_unix") ps
                      (value (codes "plan_start") (codes "planStart") (codes "plan_start") ps (
                        value (codes "plan_end") (codes "planEnd") (codes "plan_end") ps
                          (credits ps)))))))))))
    where
      rest_of : Fields → Fields
      rest_of ps =
          count (codes "avail_flex_credits") (codes "availableFlexCredits")
            (codes "available_flex_credits") ps
            (count (codes "used_flex_credits") (codes "usedFlexCredits") (codes "used_flex_credits")
              ps
              (count (codes "overage_micros") (codes "overageBalanceMicros")
                (codes "overage_balance_micros") ps
                (value (codes "grace") (codes "gracePeriodStatus") (codes "grace_period_status") ps
                  end)))

      credits : Fields → Fields
      credits ps =
          count (codes "avail_prompt_credits") (codes "availablePromptCredits")
            (codes "available_prompt_credits") ps
            (count (codes "used_prompt_credits") (codes "usedPromptCredits")
              (codes "used_prompt_credits") ps
              (count (codes "avail_flow_credits") (codes "availableFlowCredits")
                (codes "available_flow_credits") ps
                (count (codes "used_flow_credits") (codes "usedFlowCredits")
                  (codes "used_flow_credits") ps (rest_of ps))))

  -- `_quota_from_plan_status`
  unfoldable pub quota_from_plan_status : Fields → Fields → Fields
  unfolding quota_of
  quota_from_plan_status end pi = end
  quota_from_plan_status (field k v ps) pi = quota_of (field k v ps) pi
