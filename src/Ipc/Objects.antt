-- ===== src/Ipc/Objects.antt =====
-- The documents of common/ipc.cpp as lists of members, and what the accessors find in them.
use miqudm.Prelude.{
  ◌≡◌, refl, Bool, true, false, not, ◌||◌, List, [], ◌∷◌, map, Option, some, Text, text_eq,
  is_empty, if◌then◌else◌, arith, All,
}
use miqudm.Ipc.Library.{Json, JsonLaws}
use miqudm.Ipc.{set_text, set_items, get_text, get_bool, get_items, all_from}

module _ (j : Json) (laws : JsonLaws j) where
  open j use {Value, null, string, boolean, number, array, set}
  open laws use {
    IsObject, null-IsObject, set-IsObject, get-null, get-set, is_member-null, is_member-set,
    as_string-string, is_array-array, elements-array,
  }

  abbrev pub Members : Type 0
  Members = List (Text × Value)

  -- The object with these members, the last one set first.
  abbrev pub build : Members → Value
  build [] = null
  build ((k, x) ∷ l) = set (build l) k x

  build-IsObject : (l : Members) → IsObject (build l)
  build-IsObject [] = null-IsObject
  build-IsObject ((k, x) ∷ l) = set-IsObject (build l) k x (build-IsObject l)

  abbrev pub member : Text → Members → Value → Value
  member i [] d = d
  member i ((k, x) ∷ l) d = if text_eq k i then x else member i l d

  abbrev pub is_in : Text → Members → Bool
  is_in i [] = false
  is_in i ((k, x) ∷ l) = if text_eq k i then true else is_in i l

  pub get-build : (l : Members) (i : Text) (d : Value) → j.get (build l) i d ≡ some (member i l d)
  get-build [] i d = get-null i d
  get-build ((k, x) ∷ l) i d =
      ground (arith, get-set (build l) k i x d (build-IsObject l), get-build l i d)

  pub is_member-build : (l : Members) (i : Text) → j.is_member (build l) i ≡ some (is_in i l)
  is_member-build [] i = is_member-null i
  is_member-build ((k, x) ∷ l) i =
      ground (arith, is_member-set (build l) k i x (build-IsObject l), is_member-build l i)

  -- What `set_text` and `set_items` do to the members.
  unfoldable pub with_text : Text → Text → Members → Members
  with_text k s l = if not (is_empty s) then (k, string s) ∷ l else l

  unfoldable pub with_items : {A : Type 0} → Text → (A → Value) → List A → Members → Members
  with_items k f xs l = if not (is_empty xs) then (k, array (map f xs)) ∷ l else l

  pub set_text-build :
      (k s : Text) (l : Members) → set_text j k s (build l) ≡ build (with_text k s l)
  unfolding set_text with_text
  set_text-build k [] l = refl
  set_text-build k (c ∷ s) l = refl

  pub set_items-build :
      {A : Type 0} (k : Text) (f : A → Value) (xs : List A) (l : Members)
      → set_items j k f xs (build l) ≡ build (with_items k f xs l)
  unfolding set_items with_items
  set_items-build k f [] l = refl
  set_items-build k f (x ∷ xs) l = refl

  pub member-with_text :
      (i k s : Text) (l : Members) (d : Value)
      → member i (with_text k s l) d
        ≡ (if text_eq k i then (if is_empty s then member i l d else string s) else member i l d)
  unfolding with_text
  member-with_text i k s l d = ground arith

  -- No text that a message asks for is under a key of its lists.
  pub member-with_items :
      {A : Type 0} (i k : Text) (f : A → Value) (xs : List A) (l : Members) (d : Value)
      → member i (with_items k f xs l) d ≡ (
          if text_eq k i
          then (if is_empty xs then member i l d else array (map f xs))
          else member i l d)
  unfolding with_items
  member-with_items i k f xs l d = ground arith

  pub is_in-with_items :
      {A : Type 0} (i k : Text) (f : A → Value) (xs : List A) (l : Members)
      → is_in i (with_items k f xs l)
        ≡ (if text_eq k i then (not (is_empty xs) || is_in i l) else is_in i l)
  unfolding with_items
  is_in-with_items i k f xs l = ground arith

  pub is_in-with_text :
      (i k s : Text) (l : Members)
      → is_in i (with_text k s l)
        ≡ (if text_eq k i then (not (is_empty s) || is_in i l) else is_in i l)
  unfolding with_text
  is_in-with_text i k s l = ground arith

  pub ruleset message_laws =
      (member-with_text, member-with_items, is_in-with_items, is_in-with_text)

  -- A text that is left out where it is empty reads as the empty text.
  pub as_string-or_empty :
      (s : Text) → j.as_string (if is_empty s then string [] else string s) ≡ some s
  as_string-or_empty [] = as_string-string []
  as_string-or_empty (c ∷ s) = as_string-string (c ∷ s)

  pub get_text-build :
      (k d : Text) (l : Members) → get_text j k d (build l) ≡ j.as_string (member k l (string d))
  unfolding get_text
  get_text-build k d l = rw (get-build l k (string d))

  pub get_bool-build :
      (k : Text) (d : Bool) (l : Members)
      → get_bool j k d (build l) ≡ j.as_bool (member k l (boolean d))
  unfolding get_bool
  get_bool-build k d l = rw (get-build l k (boolean d))

  pub all_from-map :
      {A : Type 0} (from : Value → Option A) (f : A → Value) (P : A → Type 0) (xs : List A)
      → ((x : A) → P x → from (f x) ≡ some x)
      → All P xs
      → all_from j from (map f xs) ≡ some xs
  unfolding all_from
  all_from-map from f P [] back ps = refl
  all_from-map from f P (x ∷ xs) back ps = rw (back x ps.0, all_from-map from f P xs back ps.1)

  pub get_items-cong :
      {A : Type 0} (from : Value → Option A) (k : Text) (l l' : Members)
      → member k l null ≡ member k l' null
      → is_in k l ≡ is_in k l'
      → get_items j k from (build l) ≡ get_items j k from (build l')
  unfolding get_items
  get_items-cong from k l l' e f =
      rw (is_member-build l k, get-build l k null, is_member-build l' k, get-build l' k null, e, f)

  -- Reading back what `set_items` set, where nothing else has the key.
  pub get_items-with_items :
      {A : Type 0} (from : Value → Option A) (f : A → Value) (P : A → Type 0) (k : Text)
      (xs : List A) (l : Members)
      → ((x : A) → P x → from (f x) ≡ some x)
      → All P xs
      → text_eq k k ≡ true
      → is_in k l ≡ false
      → get_items j k from (build (with_items k f xs l)) ≡ some xs
  unfolding get_items with_items
  get_items-with_items from f P k [] l back ps e free =
      rw (is_member-build l k, free, get-build l k null)
  get_items-with_items from f P k (x ∷ xs) l back ps e free =
      let l' : Members = (k, array (map f (x ∷ xs))) ∷ l in
      rw (
        is_member-build l' k,
        get-build l' k null,
        e,
        is_array-array,
        elements-array,
        all_from-map from f P (x ∷ xs) back ps,
      )
