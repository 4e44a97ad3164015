-- ===== src/Gphotos/Strictness.antt =====
-- internal/gphotos: what a page that was decoded holds.
use gpb.Gphotos.Json.{Elements, nil, cons, Conversions, count}
use gpb.Gphotos.Tree.{Tree, at, only, last, text, present, Decoded, decoded, drifted, ◌>>=◌, driftf}
use gpb.Gphotos.Items.{MediaItem, nonempty, decode_each, decoded_item, decode_media_item}
use gpb.Gphotos.Albums.{
  Album, decoded_album, decode_album, decoded_shared_album, decode_shared_album,
}
use gpb.Common.{
  ℕ, suc, false, ◌≡◌, ◌⊎◌, inl, inr, refl, subst, ap, Option, none, some, String, ◌==◌, string_eq,
  length, All, Bool-cases,
}

-- What is decoded has a property.
unfoldable pub Gives {ℓ} : {A : Type ℓ} → (A → Type 0) → Decoded A → Type 0
Gives P (decoded a) = P a
Gives P (drifted e) = Unit

pub Gives-bind {ℓ κ} :
    {A : Type ℓ} {B : Type κ} (P : A → Type 0) (Q : B → Type 0) (r : Decoded A) (f : A → Decoded B)
    → Gives P r
    → ((a : A) → P a → Gives Q (f a))
    → Gives Q (r >>= f)
unfolding Gives
Gives-bind P Q (decoded a) f h k = k a h
Gives-bind P Q (drifted e) f h k = tt

pub Gives-map {ℓ} :
    {A : Type ℓ} (P Q : A → Type 0) (r : Decoded A) → ((a : A) → P a → Q a) → Gives P r → Gives Q r
unfolding Gives
Gives-map P Q (decoded a) f h = f a h
Gives-map P Q (drifted e) f h = tt

pub Gives-decoded {ℓ} :
    {A : Type ℓ} (P : A → Type 0) (r : Decoded A) (a : A) → Gives P r → r ≡ decoded a → P a
unfolding Gives
Gives-decoded P r a h e = subst (Gives P) e h

-- One for each element, and all as the decoder gives them.
pub decode_each-Gives {ℓ} :
    {A : Type ℓ} (P : A → Type 0) (decode : Tree → Decoded A)
    → ((t : Tree) → Gives P (decode t))
    → (node : Tree) (index : ℕ) (elements : Elements)
    → Gives
        (λ all. (length all ≡ count elements) × All P all)
        (decode_each decode node index elements)
unfolding decode_each Gives
decode_each-Gives P decode h node index nil = (refl, tt)
decode_each-Gives P decode h node index (cons element elements) =
    Gives-bind P _ (decode (at node index)) _ (h (at node index)) (λ first p.
      Gives-bind (λ all. (length all ≡ count elements) × All P all) _
        (decode_each decode node (suc index) elements) _
        (decode_each-Gives P decode h node (suc index) elements) (λ rest r. (ap suc r.0, (p, r.1))))

abbrev pub HasKey : MediaItem → Type 0
HasKey item = (item.media_key == "") ≡ false

abbrev pub HasId : Album → Type 0
HasId album = (album.id == "") ≡ false

nonempty-cases :
    (value : Option String)
    → (nonempty value ≡ none) ⊎ ((s : String) × (nonempty value ≡ some s) × ((s == "") ≡ false))
nonempty-cases none = inl refl
nonempty-cases (some s) = elim (Bool-cases (s == "")) [
  | inl e ↦ inl (rw e refl)
  | inr e ↦ inr (s, (rw e refl), e)
]

module _ (go : Conversions) where
  pub decode_media_item-HasKey : (node : Tree) → Gives HasKey (decode_media_item go node)
  unfolding decode_media_item decoded_item driftf Gives
  decode_media_item-HasKey node = elim (nonempty-cases (text (at node 0))) [
    | inl e ↦ rw e tt
    | inr (s, e, f) ↦ rw e f
  ]

  pub decode_album-HasId : (node : Tree) → Gives HasId (decode_album go node)
  unfolding decode_album decoded_album driftf Gives
  decode_album-HasId node = elim (nonempty-cases (text (at node 6))) [
    | inl e ↦ rw e tt
    | inr (s, e, f) ↦ rw e f
  ]

  pub decode_shared_album-HasId : (node : Tree) → Gives HasId (decode_shared_album go node)
  unfolding decode_shared_album decoded_shared_album driftf Gives
  decode_shared_album-HasId node = elim (nonempty-cases (text (at node 0))) [
    | inl e ↦ rw e tt
    | inr (s, e, f) ↦ elim (Bool-cases (present (only (last node)))) [
      | inl p ↦ rw (e, p) f
      | inr p ↦ rw (e, p) tt
    ]
  ]
