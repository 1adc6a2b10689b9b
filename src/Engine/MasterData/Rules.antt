-- ===== src/Engine/MasterData/Rules.antt =====
-- No required field goes unreported: the catalogue has a rule for each of their codes, whatever the case
-- mapping does to the ids.
use ses.Base.{
  ◌≡◌, String, Bool, true, List, [], ◌∷◌, ◌++◌, map, All, arith, contains, is_some, eq_refl,
  Bool-cases, inl, inr, str_eq,
}
use ses.Base.Dict.{Dict, lookup, insert, lookup-insert}
use ses.Js.{Host}
use ses.Audit.Issue.{RuleCatalogEntry}
use ses.Engine.MdColumns.{ColumnSpec}
use ses.Engine.MasterData.{missing_field_rule_code, missing_field_rule, rules_by_code}

abbrev has_code : String → Dict RuleCatalogEntry → Bool
has_code code entries = is_some (lookup code entries)

rules_by_code-keeps :
    (rules : List RuleCatalogEntry) (entries : Dict RuleCatalogEntry) (code : String)
    → has_code code entries ≡ true
    → has_code code (rules_by_code rules entries) ≡ true
unfolding rules_by_code
rules_by_code-keeps [] entries code h = h
rules_by_code-keeps (rule ∷ rules) entries code h =
    rules_by_code-keeps rules (insert rule.rule_code rule entries) code
      (ground (arith, lookup-insert rule.rule_code code rule entries))

pub rules_by_code-has :
    (rules : List RuleCatalogEntry) (entries : Dict RuleCatalogEntry) (code : String)
    → contains (map (λ rule. rule.rule_code) rules) code ≡ true
    → has_code code (rules_by_code rules entries) ≡ true
unfolding rules_by_code
rules_by_code-has [] entries code h = absurd (cc)
rules_by_code-has (rule ∷ rules) entries code h =
    let entries' = insert rule.rule_code rule entries in
    elim (Bool-cases (str_eq rule.rule_code code)) [
      | inl e ↦
          rules_by_code-keeps rules entries' code
            (ground (arith, lookup-insert rule.rule_code code rule entries))
      | inr e ↦ rules_by_code-has rules entries' code (ground arith)
    ]

All-weaken {ℓ κ} :
    {A : Type ℓ} (P Q : A → Type κ) → ((x : A) → P x → Q x) → (xs : List A) → All P xs → All Q xs
All-weaken P Q f [] h = tt
All-weaken P Q f (x ∷ xs) h = (f x h.0, All-weaken P Q f xs h.1)

-- The codes of a catalogue that starts with the rules of the columns.
abbrev pub codes_of : Host → List ColumnSpec → List RuleCatalogEntry → List String
codes_of host columns more =
    map (λ rule. rule.rule_code) (map (missing_field_rule host) columns ++ more)

pub codes_of-has :
    (host : Host) (columns : List ColumnSpec) (more : List RuleCatalogEntry)
    → All
        (λ c. contains (codes_of host columns more) (missing_field_rule_code host c.id) ≡ true)
        columns
unfolding missing_field_rule
codes_of-has host [] more = tt
codes_of-has host (c ∷ columns) more = (
  ground (arith, eq_refl (missing_field_rule_code host c.id)),
  All-weaken _ _
      (λ x h. ground (
        arith,
        Bool-cases (str_eq (missing_field_rule_code host c.id) (missing_field_rule_code host x.id)),
      ))
      columns (codes_of-has host columns more),
)
