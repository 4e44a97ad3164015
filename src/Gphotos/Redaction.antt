-- ===== src/Gphotos/Redaction.antt =====
-- A payload whose texts and numbers are replaced, and what stays as it was.
use gpb.Gphotos.Json.{
  Json, null, string, number, boolean, array, object, Elements, nil, cons, Members, done, member,
  Conversions, count, count_members, element, last_of, sole_member,
}
use gpb.Gphotos.Tree.{
  Tree, value_at, at_index, at_only, at, last_value, last, only_value, only, is_present, present,
  sample_shape, sample_shapes, parts,
}
use gpb.Common.{ℕ, zero, suc, ◌≡◌, ap, refl, ◌∷◌, String, string_eq}

module _ (f : String → String) (g : ℕ → ℕ) where
  -- A payload with other texts and numbers.
  unfoldable mutual
    pub redact : Json → Json
    redact null = null
    redact (string value) = string (f value)
    redact (number value) = number (g value)
    redact (boolean value) = boolean value
    redact (array elements) = array (redact_elements elements)
    redact (object members) = object (redact_members members)

    pub redact_elements : Elements → Elements
    redact_elements nil = nil
    redact_elements (cons first elements) = cons (redact first) (redact_elements elements)

    pub redact_members : Members → Members
    redact_members done = done
    redact_members (member name value members) = member name (redact value) (redact_members members)

  abbrev pub redact_tree : Tree → Tree
  redact_tree t = record {
    value = redact t.value;
    root = redact t.root;
    label = t.label;
    path = t.path;
  }

  pub count-redact : (elements : Elements) → count (redact_elements elements) ≡ count elements
  unfolding redact
  count-redact nil = refl
  count-redact (cons first elements) = ap suc (count-redact elements)

  pub count_members-redact :
      (members : Members) → count_members (redact_members members) ≡ count_members members
  unfolding redact
  count_members-redact done = refl
  count_members-redact (member name value members) = ap suc (count_members-redact members)

  pub element-redact :
      (index : ℕ) (elements : Elements)
      → element index (redact_elements elements) ≡ redact (element index elements)
  unfolding redact
  element-redact index nil = refl
  element-redact zero (cons first elements) = refl
  element-redact (suc index) (cons first elements) = element-redact index elements

  pub value_at-redact :
      (index : ℕ) (value : Json) → value_at index (redact value) ≡ redact (value_at index value)
  unfolding redact
  value_at-redact index null = refl
  value_at-redact index (string value) = refl
  value_at-redact index (number value) = refl
  value_at-redact index (boolean value) = refl
  value_at-redact index (array elements) = element-redact index elements
  value_at-redact index (object members) = refl

  pub at-redact : (t : Tree) (index : ℕ) → at (redact_tree t) index ≡ redact_tree (at t index)
  unfolding at
  at-redact t index =
      ap
        (λ value. record {
          value = value;
          root = redact t.root;
          label = t.label;
          path = at_index index ∷ t.path;
        })
        (value_at-redact index t.value)

  pub last_of-redact :
      (first : Json) (elements : Elements)
      → last_of (redact_elements (cons first elements)) ≡ redact (last_of (cons first elements))
  unfolding redact
  last_of-redact first nil = refl
  last_of-redact first (cons second elements) = last_of-redact second elements

  pub sole_member-redact :
      (members : Members) → sole_member (redact_members members) ≡ redact (sole_member members)
  unfolding redact
  sole_member-redact done = refl
  sole_member-redact (member name value done) = refl
  sole_member-redact (member name value (member other second members)) = refl

  pub only_value-redact : (value : Json) → only_value (redact value) ≡ redact (only_value value)
  unfolding redact
  only_value-redact null = refl
  only_value-redact (string value) = refl
  only_value-redact (number value) = refl
  only_value-redact (boolean value) = refl
  only_value-redact (array elements) = refl
  only_value-redact (object members) = sole_member-redact members

  pub last_value-redact :
      (t : Tree) (value : Json)
      → last_value (redact_tree t) (redact value) ≡ redact_tree (last_value t value)
  unfolding redact
  last_value-redact t null = refl
  last_value-redact t (string value) = refl
  last_value-redact t (number value) = refl
  last_value-redact t (boolean value) = refl
  last_value-redact t (array nil) = refl
  last_value-redact t (array (cons first elements)) =
      rw (count-redact elements, last_of-redact first elements) refl
  last_value-redact t (object members) = refl

  pub is_present-redact : (value : Json) → is_present (redact value) ≡ is_present value
  unfolding redact
  is_present-redact null = refl
  is_present-redact (string value) = refl
  is_present-redact (number value) = refl
  is_present-redact (boolean value) = refl
  is_present-redact (array elements) = refl
  is_present-redact (object members) = refl

  pub present-redact : (t : Tree) → present (redact_tree t) ≡ present t
  unfolding present
  present-redact t = is_present-redact t.value

  mutual
    unfolding redact sample_shape

    pub sample_shape-redact :
        (go : Conversions) (depth : ℕ) (value : Json)
        → sample_shape go depth (redact value) ≡ sample_shape go depth value
    sample_shape-redact go depth null = refl
    sample_shape-redact go depth (string value) = refl
    sample_shape-redact go depth (number value) = refl
    sample_shape-redact go depth (boolean value) = refl
    sample_shape-redact go zero (array elements) = rw (count-redact elements) refl
    sample_shape-redact go (suc depth) (array elements) =
        ap parts (sample_shapes-redact go depth elements)
    sample_shape-redact go depth (object members) = rw (count_members-redact members) refl

    sample_shapes-redact :
        (go : Conversions) (depth : ℕ) (elements : Elements)
        → sample_shapes go depth (redact_elements elements) ≡ sample_shapes go depth elements
    sample_shapes-redact go depth nil = refl
    sample_shapes-redact go depth (cons first elements) =
        rw (sample_shape-redact go depth first, sample_shapes-redact go depth elements) refl

  pub last-redact : (t : Tree) → last (redact_tree t) ≡ redact_tree (last t)
  unfolding last
  last-redact t = last_value-redact t t.value

  pub only-redact : (t : Tree) → only (redact_tree t) ≡ redact_tree (only t)
  unfolding only
  only-redact t =
      ap
        (λ value. record {
          value = value;
          root = redact t.root;
          label = t.label;
          path = at_only ∷ t.path;
        })
        (only_value-redact t.value)
