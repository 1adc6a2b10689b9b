-- ===== src/Base/Dict.antt =====
-- A JavaScript `Map` or object with string keys: an association list in insertion order, in which
-- a write to a key that is there keeps the key's place.
use mathlib.Core.Path.{◌≡◌, refl}
use mathlib.Core.Bool.{true, false}
use mathlib.Core.Option.{Option, none, some}
use mathlib.Core.List.{List, [], ◌∷◌, map}
use Prim.Native.String.{String}
use native.Mathlib.Omega.{arith}
use text.Mathlib.TextEquality.{eq_iff}
use ses.Base.Tests.{if◌then◌else◌}
use ses.Base.Texts.{str_eq, contains}

abbrev pub Dict {ℓ} : Type ℓ → Type ℓ
Dict V = List (String × V)

module _ {ℓ} {V : Type ℓ} where
  -- `map.set(key, value)`.
  unfoldable pub insert : String → V → Dict V → Dict V
  insert key value [] = (key, value) ∷ []
  insert key value ((here, old) ∷ rest) =
      if str_eq here key then (here, value) ∷ rest else (here, old) ∷ insert key value rest

  -- `map.get(key)`.
  unfoldable pub lookup : String → Dict V → Option V
  lookup key [] = none
  lookup key ((here, value) ∷ rest) = if str_eq here key then some value else lookup key rest

  -- After a write the written key reads the new value, and every other key what it read before.
  pub lookup-insert :
      (key asked : String) (value : V) (entries : Dict V)
      → lookup asked (insert key value entries)
        ≡ (if str_eq key asked then some value else lookup asked entries)
  unfolding insert lookup
  lookup-insert key asked value [] = refl
  lookup-insert key asked value ((here, old) ∷ rest) =
      let later = lookup-insert key asked value rest in
      ground (arith, later, eq_iff here asked, eq_iff here key, eq_iff key asked)

  abbrev pub NodupKeys : Dict V → Type 0
  NodupKeys [] = Unit
  NodupKeys ((k, v) ∷ m) = (contains (map (λ e. e.0) m) k ≡ false) × NodupKeys m

  -- Writing back what is there changes nothing.
  pub insert_same : (k : String) (v : V) (m : Dict V) → lookup k m ≡ some v → insert k v m ≡ m
  unfolding lookup insert
  insert_same k v [] h = ground arith
  insert_same k v ((i, w) ∷ m) h = ground (arith, insert_same k v m)

  contains-keys-insert :
      (k j : String) (v : V) (m : Dict V)
      → contains (map (λ e. e.0) (insert k v m)) j
        ≡ (if str_eq k j then true else contains (map (λ e. e.0) m) j)
  unfolding insert
  contains-keys-insert k j v [] = ground arith
  contains-keys-insert k j v ((i, w) ∷ m) =
      ground (arith, eq_iff k j, eq_iff i k, eq_iff i j, contains-keys-insert k j v m)

  -- A write keeps the keys distinct.
  pub insert-NodupKeys : (k : String) (v : V) (m : Dict V) → NodupKeys m → NodupKeys (insert k v m)
  unfolding insert
  insert-NodupKeys k v [] h = ground arith
  insert-NodupKeys k v ((i, w) ∷ m) h =
      ground
        (arith, eq_iff i k, eq_iff k i, insert-NodupKeys k v m h.1, contains-keys-insert k i v m)

  pub lookup_of_not-key :
      (k : String) (m : Dict V) → contains (map (λ e. e.0) m) k ≡ false → lookup k m ≡ none
  unfolding lookup
  lookup_of_not-key k [] h = refl
  lookup_of_not-key k ((i, w) ∷ m) h = ground (arith, lookup_of_not-key k m)
