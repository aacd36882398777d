-- ===== src/Ipc/Library.antt =====
-- JsonCpp, as common/ipc.cpp uses it: its operations, and the documented laws that the sources
-- rely on. Models no code of its own.
use miqudm.Prelude.{
  ℕ, ◌≡◌, Bool, true, false, List, Option, none, some, Text, text_eq, if◌then◌else◌,
}

pub record Json : Type 1 where
  pub Value : Type 0
  -- A default-constructed value; `array` is an `arrayValue` with its items appended.
  pub null : Value
  pub string : Text → Value
  pub boolean : Bool → Value
  pub number : ℕ → Value
  pub array : List Value → Value
  -- `v[key] = x`; `v.get(key, d)`; `v.isMember(key)`.
  pub set : Value → Text → Value → Value
  pub get : Value → Text → Value → Option Value
  pub is_member : Value → Text → Option Bool
  pub is_array : Value → Bool
  pub elements : Value → List Value
  pub as_string : Value → Option Text
  pub as_bool : Value → Option Bool
  pub as_uint64 : Value → Option ℕ
  -- `writeString` with no indentation; `parseFromStream` and its message.
  pub write : Value → Text
  pub parse : Text → Option Value
  pub parse_error : Text → Text

-- The laws of values that are null or objects, and of the conversions.
pub record JsonLaws (j : Json) : Type 1 where
  pub IsObject : j.Value → Type 0
  pub null-IsObject : IsObject j.null
  pub set-IsObject : (v : j.Value) (k : Text) (x : j.Value) → IsObject v → IsObject (j.set v k x)
  pub get-null : (k : Text) (d : j.Value) → j.get j.null k d ≡ some d
  pub get-set :
      (v : j.Value) (k i : Text) (x d : j.Value)
      → IsObject v
      → j.get (j.set v k x) i d ≡ (if text_eq k i then some x else j.get v i d)
  pub is_member-null : (k : Text) → j.is_member j.null k ≡ some false
  pub is_member-set :
      (v : j.Value) (k i : Text) (x : j.Value)
      → IsObject v
      → j.is_member (j.set v k x) i ≡ (if text_eq k i then some true else j.is_member v i)
  pub as_string-string : (s : Text) → j.as_string (j.string s) ≡ some s
  pub as_bool-boolean : (b : Bool) → j.as_bool (j.boolean b) ≡ some b
  pub as_uint64-number : (n : ℕ) → j.as_uint64 (j.number n) ≡ some n
  pub is_array-array : (vs : List j.Value) → j.is_array (j.array vs) ≡ true
  pub elements-array : (vs : List j.Value) → j.elements (j.array vs) ≡ vs

infixl 5 ◌>>=◌
abbrev pub ◌>>=◌ {ℓ κ} : {A : Type ℓ} {B : Type κ} → Option A → (A → Option B) → Option B
none >>= f = none
some a >>= f = f a
