-- ===== src/Engine/Opportunities/Hits.antt =====
-- The rule codes that the checks of an opportunity can give.
use ses.Base.{
  ◌≡◌, ◌≢◌, refl, ap, sym, ◌∙◌, String, Bool, true, false, ◌&&◌, List, [], ◌∷◌, All, is_some,
  str_eq, drop, if◌then◌else◌,
}
use ses.Engine.Build.{find_rule}
use ses.Engine.OppRules.{opportunities_rule_catalog, opp_closed_date_past_low_prob_rule_code}
use ses.Engine.Opportunities.{Limits, OppFacts, RuleHit, Check, checks_of, fired, hits_of, code_of}

fired-All :
    (P : RuleHit → Type 0) (checks : List Check) → All (λ c. P c.hit) checks → All P (fired checks)
unfolding fired
fired-All P [] h = tt
fired-All P (c ∷ checks) h = keep c.fires (fired-All P checks h.1)
  where
    keep :
        (b : Bool) → All P (fired checks) → All P (if b then c.hit ∷ fired checks else fired checks)
    keep true rest = (h.0, rest)
    keep false rest = rest

abbrev is_known : String → Bool
is_known code = is_some (find_rule opportunities_rule_catalog code)

abbrev IsKnown : RuleHit → Type 0
IsKnown hit = is_known hit.code ≡ true

hits_of-IsKnown : (limits : Limits) (f : OppFacts) → All IsKnown (hits_of limits f)
unfolding hits_of find_rule
hits_of-IsKnown limits f =
    fired-All IsKnown (checks_of limits f) (refl, (refl, (refl, (refl, (refl, (refl, tt))))))

code_of-IsKnown : (hits : List RuleHit) → All IsKnown hits → is_known (code_of hits) ≡ true
unfolding code_of find_rule
code_of-IsKnown [] h = refl
code_of-IsKnown (hit ∷ []) h = h.0
code_of-IsKnown (hit ∷ next ∷ hits) h = refl

-- Whatever the checks find, the catalogue has a rule for the code of the finding.
pub code_of-hits_of :
    (limits : Limits) (f : OppFacts)
    → is_some (find_rule opportunities_rule_catalog (code_of (hits_of limits f))) ≡ true
code_of-hits_of limits f = code_of-IsKnown (hits_of limits f) (hits_of-IsKnown limits f)

abbrev low_prob : String
low_prob = opp_closed_date_past_low_prob_rule_code

abbrev IsOther : RuleHit → Type 0
IsOther hit = str_eq hit.code low_prob ≡ false

code_of-IsOther : (hits : List RuleHit) → All IsOther hits → str_eq (code_of hits) low_prob ≡ false
unfolding code_of
code_of-IsOther [] h = refl
code_of-IsOther (hit ∷ []) h = h.0
code_of-IsOther (hit ∷ next ∷ hits) h = refl

code_of-first :
    (hit : RuleHit) (hits : List RuleHit)
    → IsOther hit
    → str_eq (code_of (hit ∷ hits)) low_prob ≡ false
unfolding code_of
code_of-first hit [] h = h
code_of-first hit (next ∷ hits) h = refl

-- Where the second check fires the first one does.
fired-guarded :
    (b c : Bool) (first : RuleHit) (second : RuleHit) (checks : List Check)
    → IsOther first
    → All (λ c. IsOther c.hit) checks
    → str_eq
        (code_of (
          fired
            (record { fires = b; hit = first } ∷ record { fires = b && c; hit = second } ∷ checks)))
        low_prob
      ≡ false
unfolding fired
fired-guarded true c first second checks h hs = code_of-first first _ h
fired-guarded false c first second checks h hs = code_of-IsOther _ (fired-All IsOther checks hs)

hits_of-low_prob :
    (limits : Limits) (f : OppFacts) → str_eq (code_of (hits_of limits f)) low_prob ≡ false
unfolding hits_of
hits_of-low_prob limits f =
    fired-guarded f.cls_date_in_past _ _ _ (drop 2 (checks_of limits f)) refl
      (refl, (refl, (refl, (refl, tt))))

-- No finding has the rule code of a past close date with a low probability: where that check fires the
-- check of the past close date fires too, so the finding is a composite one.
pub code_of-ne-low_prob :
    (limits : Limits) (f : OppFacts)
    → code_of (hits_of limits f) ≢ opp_closed_date_past_low_prob_rule_code
code_of-ne-low_prob limits f e = absurd (cc known)
  where
    known : str_eq low_prob low_prob ≡ false
    known = ap (λ code. str_eq code low_prob) (sym e) ∙ hits_of-low_prob limits f
