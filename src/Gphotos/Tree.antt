-- ===== src/Gphotos/Tree.antt =====
-- internal/gphotos/drift.go: the positional reader of a payload, and what a drift error reports. The
-- sentence that driftf prints of these parts is left out.
use Prim.Native.String.{len}
use gpb.Gphotos.Json.{
  Json, null, string, number, boolean, array, object, Elements, nil, cons, Conversions, count,
  count_members, element, last_of, member_of, sole_member,
}
use gpb.Common.{
  ℕ, zero, suc, Bool, true, false, Option, none, some, List, [], ◌∷◌, String, if◌then◌else◌,
}

-- A step of the path that a node was walked by.
pub data Step : Type 0 where
  at_index : ℕ → Step
  at_key : String → Step
  at_last at_only : Step

-- The steps stand with the newest first.
pub record Tree : Type 0 where
  pub value : Json
  pub root : Json
  pub label : String
  pub path : List Step

abbrev pub root_of : Json → String → Tree
root_of value label = record { value = value; root = value; label = label; path = [] }

abbrev pub child : Tree → Step → Json → Tree
child t step value = record { value = value; root = t.root; label = t.label; path = step ∷ t.path }

abbrev pub value_at : ℕ → Json → Json
value_at index (array elements) = element index elements
value_at index _ = null

abbrev pub value_of_key : String → Json → Json
value_of_key name (object members) = member_of name members
value_of_key name _ = null

unfoldable pub at : Tree → ℕ → Tree
at t index = child t (at_index index) (value_at index t.value)

unfoldable pub key : Tree → String → Tree
key t name = child t (at_key name) (value_of_key name t.value)

abbrev pub last_value : Tree → Json → Tree
last_value t (array nil) = child t at_last null
last_value t (array (cons first elements)) =
    child t (at_index (count elements)) (last_of (cons first elements))
last_value t _ = child t at_last null

unfoldable pub last : Tree → Tree
last t = last_value t t.value

abbrev pub only_value : Json → Json
only_value (object members) = sole_member members
only_value _ = null

unfoldable pub only : Tree → Tree
only t = child t at_only (only_value t.value)

abbrev pub is_present : Json → Bool
is_present null = false
is_present _ = true

unfoldable pub present : Tree → Bool
present t = is_present t.value

abbrev pub text_of : Json → Option String
text_of (string value) = some value
text_of _ = none

unfoldable pub text : Tree → Option String
text t = text_of t.value

abbrev pub number_of : Json → Option ℕ
number_of (number value) = some value
number_of _ = none

unfoldable pub number_at : Tree → Option ℕ
number_at t = number_of t.value

abbrev pub list_of : Json → Option Elements
list_of (array elements) = some elements
list_of _ = none

unfoldable pub list : Tree → Option Elements
list t = list_of t.value

-- What describe names.
pub data Shape : Type 0 where
  nothing a_number a_boolean : Shape
  a_string : ℕ → Shape
  an_array : ℕ → Shape
  an_object : ℕ → Shape

-- The skeleton that sampleShape prints: `cut` where the depth ends.
mutual
  pub data Skeleton : Type 0 where
    null_slot str num bool : Skeleton
    cut : ℕ → Skeleton
    keys : ℕ → Skeleton
    parts : Skeletons → Skeleton

  pub data Skeletons : Type 0 where
    no_more : Skeletons
    and_then : Skeleton → Skeletons → Skeletons

pub record Drift : Type 0 where
  pub want : String
  pub label : String
  pub path : List Step
  pub found : Shape
  pub skeleton : Skeleton

pub data Decoded {ℓ} (A : Type ℓ) : Type ℓ where
  decoded : A → Decoded A
  drifted : Drift → Decoded A

infixl 5 ◌>>=◌
abbrev pub ◌>>=◌ {ℓ κ} : {A : Type ℓ} {B : Type κ} → Decoded A → (A → Decoded B) → Decoded B
decoded a >>= f = f a
drifted e >>= f = drifted e

module _ (go : Conversions) where
  unfoldable pub describe : Json → Shape
  describe null = nothing
  describe (string value) = a_string (len value)
  describe (number value) = a_number
  describe (boolean value) = a_boolean
  describe (array elements) = an_array (count elements)
  describe (object members) = an_object (count_members members)

  unfoldable mutual
    pub sample_shape : ℕ → Json → Skeleton
    sample_shape depth null = null_slot
    sample_shape depth (string value) = str
    sample_shape depth (number value) = num
    sample_shape depth (boolean value) = bool
    sample_shape zero (array elements) = cut (count elements)
    sample_shape (suc depth) (array elements) = parts (sample_shapes depth elements)
    sample_shape depth (object members) = keys (count_members members)

    pub sample_shapes : ℕ → Elements → Skeletons
    sample_shapes depth nil = no_more
    sample_shapes depth (cons first elements) =
        and_then (sample_shape depth first) (sample_shapes depth elements)

  abbrev pub payload_sample_depth : ℕ
  payload_sample_depth = 1

  unfoldable pub driftf {ℓ} : {A : Type ℓ} → Tree → String → Decoded A
  unfolding describe sample_shape
  driftf t want = drifted (record {
    want = want;
    label = t.label;
    path = t.path;
    found = describe t.value;
    skeleton = sample_shape payload_sample_depth t.root;
  })

  abbrev pub token_of : Tree → Option String → Decoded String
  token_of t none = driftf t "a page cursor"
  token_of t (some token) = decoded token

  unfoldable pub cursor : Tree → Decoded String
  unfolding present text driftf
  cursor t = if present t then token_of t (text t) else decoded ""
