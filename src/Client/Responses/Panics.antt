-- ===== src/Client/Responses/Panics.antt =====
-- When the conversions of clients/rust/src/lib.rs panic on a response.
use sysadmin.Base.{
  ◌⊎◌, inl, inr, ◌>>=◌, Option, none, some, List, [], ◌∷◌, ◌≡◌, ◌↔◌, refl, Result, ok, panic,
}
use sysadmin.Protobuf.{Protobuf}
use sysadmin.Ctl.ConfigValue
use sysadmin.Ctl.ConfigValue.{ConfigValue}
use sysadmin.Ctl.MappedField.{MappedField}
use sysadmin.Ctl.BlameEntry as CtlBlameEntry
use sysadmin.Ctl.Response.{Response}
use sysadmin.Ctl.Response.Fields
use sysadmin.Client.Value.{from_config_value}
use sysadmin.Client.Value.RoundTrip.{from_config_value-panic, from_config_value-meaning}
use sysadmin.Client.Responses.{
  convert_all, kvs_from, blame_entry_from, get_response_from, blame_response_from,
}

-- Some element of the list has the property.
abbrev pub Any {ℓ} : {A : Type ℓ} → (A → Type 0) → List A → Type 0
Any Q [] = ⊥
Any Q (a ∷ as') = Q a ⊎ Any Q as'

-- The outcome is a value or a panic, and it panics exactly on `Bad`.
pub data Panics {A : Type 0} {E : Type 0} (Bad : Type 0) : Result E A → Type 0 where
  fine : {a : A} → ¬ Bad → Panics Bad (ok a)
  bad : Bad → Panics Bad panic

Panics-iff : {A E : Type 0} {Bad : Type 0} {r : Result E A} → Panics Bad r → (r ≡ panic) ↔ Bad
Panics-iff (Panics.fine n) = (λ e. cc, λ b. absurd (n b))
Panics-iff (Panics.bad b) = (λ e. b, λ b'. refl)

then-Panics :
    {A B E : Type 0} {Bad : Type 0} {r : Result E A} (f : A → B)
    → Panics Bad r
    → Panics Bad (r >>= λ a. ok (f a))
then-Panics f (Panics.fine n) = Panics.fine n
then-Panics f (Panics.bad b) = Panics.bad b

cons-Panics :
    {A E : Type 0} {B C : Type 0} {r : Result E A} {s : Result E (List A)}
    → Panics B r
    → Panics C s
    → Panics (B ⊎ C) (r >>= λ b. s >>= λ bs. ok (b ∷ bs))
cons-Panics (Panics.fine n) (Panics.fine m) = Panics.fine (elim [ inl b ↦ n b | inr c ↦ m c ])
cons-Panics (Panics.fine n) (Panics.bad c) = Panics.bad (inr c)
cons-Panics (Panics.bad b) q = Panics.bad (inl b)

convert_all-Panics :
    {A B E : Type 0} (f : A → Result E B) (Bad : A → Type 0)
    → ((a : A) → Panics (Bad a) (f a))
    → (as' : List A) → Panics (Any Bad as') (convert_all f as')
unfolding convert_all
convert_all-Panics f Bad h [] = Panics.fine λ b. b
convert_all-Panics f Bad h (a ∷ as') = cons-Panics (h a) (convert_all-Panics f Bad h as')

module _ ⦃P : Protobuf⦄ where
  -- The field has a value in which no member is set.
  abbrev pub IsBlank : Option ConfigValue → Type 0
  IsBlank none = ⊥
  IsBlank (some cv) = cv.value ≡ none

  -- The value is missing or no member of it is set.
  abbrev pub IsMissing : Option ConfigValue → Type 0
  IsMissing none = Unit
  IsMissing (some cv) = cv.value ≡ none

module _ ⦃P : Protobuf⦄ {E : Type 0} where
  value_at :
      (cv : ConfigValue) (o : Option ConfigValue.ConfigValueOneofValue)
      → cv.value ≡ o
      → Panics (cv.value ≡ none) (from_config_value {E = E} cv)
  value_at cv none e = rw ((from_config_value-panic cv).1 e) (Panics.bad e)
  value_at cv (some v) e = rw (from_config_value-meaning {E = E} cv v e) (Panics.fine λ n. cc)

  kvs-Panics_at :
      (m : MappedField) (o : Option ConfigValue)
      → Panics (IsBlank o) (kvs_from {E = E} (record m { value = o }))
  unfolding kvs_from
  kvs-Panics_at m none = Panics.fine λ b. b
  kvs-Panics_at m (some cv) = then-Panics _ (value_at cv cv.value refl)

  entry-Panics_at :
      (m : CtlBlameEntry.BlameEntry) (o : Option ConfigValue)
      → Panics (IsMissing o) (blame_entry_from {E = E} (record m { val = o }))
  unfolding blame_entry_from from_config_value ConfigValue.new
  entry-Panics_at m none = Panics.bad tt
  entry-Panics_at m (some cv) = then-Panics _ (value_at cv cv.value refl)

  -- The conversion into a `GetResponse` panics exactly when one of the fields of the response has a value
  -- in which no member is set.
  pub get_response_from-panic :
      (r : Response)
      → (get_response_from {E = E} r ≡ panic) ↔ Any (λ m. IsBlank m.value) (Fields.take_get r).0.kvs
  unfolding get_response_from
  get_response_from-panic r =
      Panics-iff (then-Panics _ (convert_all-Panics kvs_from _ (λ m. kvs-Panics_at m m.value) _))

  -- The conversion into a `BlameResponse` panics exactly when the value of one of the entries of the
  -- response is missing or no member of it is set.
  pub blame_response_from-panic :
      (r : Response)
      → (blame_response_from {E = E} r ≡ panic)
        ↔ Any (λ m. IsMissing m.val) (Fields.take_blame r).0.entries
  unfolding blame_response_from
  blame_response_from-panic r =
      Panics-iff
        (then-Panics _ (convert_all-Panics blame_entry_from _ (λ m. entry-Panics_at m m.val) _))
