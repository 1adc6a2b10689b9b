-- ===== src/Pilot/Operators/Reads.antt =====
-- An operator answers unless a value has no conversion to text.
use ses.Base.{◌≡◌, refl, String, Bool, true, false, ◌||◌, Option, none, some, str_eq, if◌then◌else◌}
use ses.Js.{Host, Number, undefined, null, number, text, other, boolean}
use ses.Pilot.{Json, plain, array, object, Items, no_items, item, Platform}
use ses.Pilot.Operators.{
  Operator, map_some, both, text_of, num, lower_text, is_blank, any_text, one_of_texts,
  above_percent, apply_operator,
}

module _ (platform : Platform) where
  -- What is read is there, or some value has no text.
  unfoldable pub Reads {ℓ} : {A : Type ℓ} → Option A → Type 0
  Reads none = (v : Json) × (platform.show_json v ≡ none)
  Reads (some a) = Unit

  given {ℓ} : {A : Type ℓ} (a : A) → Reads (some a)
  unfolding Reads
  given a = tt

  unread {ℓ κ} : (A : Type ℓ) (B : Type κ) → Reads {A = A} none → Reads {A = B} none
  unfolding Reads
  unread A B h = h

  shown : (v : Json) (o : Option String) → platform.show_json v ≡ o → Reads o
  unfolding Reads
  shown v none e = (v, e)
  shown v (some s) e = tt

  map_some-Reads {ℓ κ} :
      {A : Type ℓ} {B : Type κ} (f : A → B) (o : Option A) → Reads o → Reads (map_some f o)
  unfolding Reads
  map_some-Reads f none h = h
  map_some-Reads f (some a) h = tt

  both-Reads {ℓ} :
      {A : Type ℓ} (test : A → A → Bool) (a b : Option A)
      → Reads a
      → Reads b
      → Reads (both test a b)
  unfolding Reads
  both-Reads test none b h k = h
  both-Reads test (some a) none h k = k
  both-Reads test (some a) (some b) h k = tt

  module _ (host : Host) where
    text_of-Reads : (v : Json) → Reads (text_of host platform v)
    unfolding text_of
    text_of-Reads (plain v) = given _
    text_of-Reads (array items) = map_some-Reads _ _ (shown (array items) _ refl)
    text_of-Reads (object fs) = map_some-Reads _ _ (shown (object fs) _ refl)

    num-Reads : (v : Json) → Reads (num host platform v)
    unfolding num
    num-Reads (plain (number n)) = given _
    num-Reads (plain undefined) = given _
    num-Reads (plain null) = given _
    num-Reads (plain (text s)) = given _
    num-Reads (plain (other s)) = given _
    num-Reads (plain (boolean b)) = given _
    num-Reads (array items) = map_some-Reads _ _ (text_of-Reads (array items))
    num-Reads (object fs) = map_some-Reads _ _ (text_of-Reads (object fs))

    lower_text-Reads : (v : Json) → Reads (lower_text host platform v)
    lower_text-Reads v = map_some-Reads _ _ (text_of-Reads v)

    is_blank-Reads : (v : Json) → Reads (is_blank host platform v)
    unfolding is_blank
    is_blank-Reads (plain (number n)) = given _
    is_blank-Reads (plain undefined) = given _
    is_blank-Reads (plain null) = given _
    is_blank-Reads (plain (text s)) = given _
    is_blank-Reads (plain (other s)) = given _
    is_blank-Reads (plain (boolean b)) = given _
    is_blank-Reads (array items) = map_some-Reads _ _ (text_of-Reads (array items))
    is_blank-Reads (object fs) = map_some-Reads _ _ (text_of-Reads (object fs))

    any_text-Reads : (s : String) (items : Items) → Reads (any_text host platform s items)
    unfolding any_text
    any_text-Reads s no_items = given _
    any_text-Reads s (item v items) =
        next (lower_text host platform v) (lower_text-Reads v) (any_text-Reads s items)
      where
        next :
            (o : Option String)
            → Reads o
            → Reads (any_text host platform s items)
            → Reads (elim o [
              | none ↦ none
              | some t ↦ map_some (λ b. str_eq t s || b) (any_text host platform s items)
            ])
        next none h k = unread String Bool h
        next (some t) h k = map_some-Reads _ _ k

    one_of_texts-Reads :
        (o : Option String) (items : Items) → Reads o → Reads (one_of_texts host platform o items)
    unfolding Reads
    one_of_texts-Reads none items h = h
    one_of_texts-Reads (some s) items h = any_text-Reads s items

    above_percent-Reads :
        (a b c : Option Number)
        → Reads a
        → Reads b
        → Reads c
        → Reads (above_percent host platform a b c)
    unfolding Reads
    above_percent-Reads none b c h k l = h
    above_percent-Reads (some a) none c h k l = k
    above_percent-Reads (some a) (some b) none h k l = l
    above_percent-Reads (some a) (some b) (some c) h k l = tt

    if-Reads : (b : Bool) (o : Option Bool) → Reads o → Reads (if b then o else some false)
    unfolding Reads
    if-Reads true o h = h
    if-Reads false o h = tt

    pub apply_operator-Reads :
        (op : Operator) (cell value values compared : Json)
        → Reads (apply_operator host platform op cell value values compared)
    unfolding apply_operator
    apply_operator-Reads Operator.greater c v vs p = both-Reads _ _ _ (num-Reads c) (num-Reads v)
    apply_operator-Reads Operator.less c v vs p = both-Reads _ _ _ (num-Reads c) (num-Reads v)
    apply_operator-Reads Operator.greater_eq c v vs p = both-Reads _ _ _ (num-Reads c) (num-Reads v)
    apply_operator-Reads Operator.less_eq c v vs p = both-Reads _ _ _ (num-Reads c) (num-Reads v)
    apply_operator-Reads Operator.equals c v vs p =
        both-Reads _ _ _ (lower_text-Reads c) (lower_text-Reads v)
    apply_operator-Reads Operator.differs c v vs p =
        both-Reads _ _ _ (lower_text-Reads c) (lower_text-Reads v)
    apply_operator-Reads Operator.percent_above c v vs p =
        above_percent-Reads _ _ _ (num-Reads c) (num-Reads p) (num-Reads v)
    apply_operator-Reads Operator.contains_text c v vs p =
        both-Reads _ _ _ (lower_text-Reads c) (lower_text-Reads v)
    apply_operator-Reads Operator.starts c v vs p =
        both-Reads _ _ _ (lower_text-Reads c) (lower_text-Reads v)
    apply_operator-Reads Operator.ends c v vs p =
        both-Reads _ _ _ (lower_text-Reads c) (lower_text-Reads v)
    apply_operator-Reads Operator.blank c v vs p = is_blank-Reads c
    apply_operator-Reads Operator.one_of c v vs p =
        if-Reads _ _ (one_of_texts-Reads _ _ (lower_text-Reads c))
    apply_operator-Reads Operator.missing c v vs p = is_blank-Reads c
    apply_operator-Reads Operator.not_missing c v vs p = map_some-Reads _ _ (is_blank-Reads c)
