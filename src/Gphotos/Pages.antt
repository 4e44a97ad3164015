-- ===== src/Gphotos/Pages.antt =====
-- internal/gphotos: what the slots of a payload held whose page was decoded.
use gpb.Gphotos.Json.{
  Json, null, string, number, boolean, array, object, Elements, Conversions, count,
}
use gpb.Gphotos.Tree.{
  Tree, root_of, at, list, list_of, text_of, value_at, is_present, present, text, token_of, Decoded,
  decoded, driftf, cursor,
}
use gpb.Gphotos.Items.{
  MediaItem, ItemPage, decode_each, decode_media_item, decode_media_items, decode_album_entries,
  decode_item_page, decode_timeline_page,
}
use gpb.Gphotos.Albums.{
  Album, AlbumPage, decode_album, page_of, decode_album_page, decode_shared_album,
  decode_shared_album_page,
}
use gpb.Gphotos.Strictness.{
  Gives, Gives-map, Gives-bind, Gives-decoded, decode_each-Gives, HasKey, HasId,
  decode_media_item-HasKey, decode_album-HasId, decode_shared_album-HasId,
}
use gpb.Common.{
  true, false, ◌&&◌, not, ◌≡◌, ◌⊎◌, inl, inr, refl, none, some, List, [], String, string_eq,
  if◌then◌else◌, length, All, arith, Bool-cases,
}

-- The token is the text of its slot, or empty where nothing stands there.
abbrev pub IsTokenOf : Json → String → Type 0
IsTokenOf slot token = (slot ≡ string token) ⊎ ((slot ≡ null) × (token ≡ ""))

-- One for each element of the array in a slot, all with a property.
abbrev pub AreAllOf {ℓ} : {A : Type ℓ} → (A → Type 0) → Json → List A → Type 0
AreAllOf P slot all =
    (elements : Elements) × (slot ≡ array elements) × (length all ≡ count elements) × All P all

-- The items of the entries, or none where the page has nothing in their slot and an album record.
abbrev pub AreEntries : Json → Json → List MediaItem → Type 0
AreEntries slot album items =
    AreAllOf HasKey slot items ⊎ ((slot ≡ null) × (is_present album ≡ true) × (items ≡ []))

list_of-cases :
    (value : Json)
    → (list_of value ≡ none)
      ⊎ ((elements : Elements) × (value ≡ array elements) × (list_of value ≡ some elements))
list_of-cases null = inl refl
list_of-cases (string s) = inl refl
list_of-cases (number n) = inl refl
list_of-cases (boolean b) = inl refl
list_of-cases (array elements) = inr (elements, refl, refl)
list_of-cases (object members) = inl refl

is_present-null : (value : Json) → is_present value ≡ false → value ≡ null
is_present-null null h = refl
is_present-null (string s) h = ground (arith, h)
is_present-null (number n) h = ground (arith, h)
is_present-null (boolean b) h = ground (arith, h)
is_present-null (array elements) h = ground (arith, h)
is_present-null (object members) h = ground (arith, h)

module _ (go : Conversions) where
  token_of-value :
      (t : Tree) (value : Json)
      → Gives
          (IsTokenOf value)
          (if is_present value then token_of go t (text_of value) else decoded "")
  unfolding Gives driftf
  token_of-value t null = inr (refl, refl)
  token_of-value t (string token) = inl refl
  token_of-value t (number n) = tt
  token_of-value t (boolean b) = tt
  token_of-value t (array elements) = tt
  token_of-value t (object members) = tt

  cursor-IsTokenOf : (t : Tree) → Gives (IsTokenOf t.value) (cursor go t)
  unfolding cursor text present
  cursor-IsTokenOf t = token_of-value t t.value

  decode_media_items-AreAllOf :
      (node : Tree) → Gives (AreAllOf HasKey node.value) (decode_media_items go node)
  unfolding decode_media_items list Gives driftf
  decode_media_items-AreAllOf node = elim (list_of-cases node.value) [
    | inl e ↦ rw e tt
    | inr (elements, e, f) ↦ rw f (
        Gives-map (λ all. (length all ≡ count elements) × All HasKey all)
          (AreAllOf HasKey node.value) (decode_each (decode_media_item go) node 0 elements)
          (λ all h. (elements, e, h.0, h.1))
          (decode_each-Gives HasKey (decode_media_item go) (decode_media_item-HasKey go) node 0
            elements))
  ]

  decode_album_entries-AreEntries :
      (root : Tree)
      → Gives
          (AreEntries (value_at 1 root.value) (value_at 3 root.value))
          (decode_album_entries go root)
  unfolding decode_album_entries at present Gives
  decode_album_entries-AreEntries root =
      elim (Bool-cases
        (not (is_present (value_at 1 root.value)) && is_present (value_at 3 root.value))) [
          | inl e ↦ rw e (
              inr (
                is_present-null (value_at 1 root.value) (ground (arith, e)),
                ground (arith, e),
                refl,
              ))
          | inr e ↦ rw e (
              Gives-map (AreAllOf HasKey (value_at 1 root.value))
                (AreEntries (value_at 1 root.value) (value_at 3 root.value))
                (decode_media_items go (at root 1)) (λ all h. inl h)
                (decode_media_items-AreAllOf (at root 1)))
        ]

  item_page-Gives :
      (payload : Json)
      → Gives
          (λ page.
            AreEntries (value_at 1 payload) (value_at 3 payload) page.items
            × IsTokenOf (value_at 2 payload) page.next_token)
          (decode_item_page go payload)
  unfolding decode_item_page at Gives
  item_page-Gives payload =
      Gives-bind (AreEntries (value_at 1 payload) (value_at 3 payload)) _
        (decode_album_entries go (root_of payload "snAcKc")) _
        (decode_album_entries-AreEntries (root_of payload "snAcKc"))
        (λ items h.
          Gives-bind (IsTokenOf (value_at 2 payload)) _
            (cursor go (at (root_of payload "snAcKc") 2)) _
            (cursor-IsTokenOf (at (root_of payload "snAcKc") 2)) (λ token k. (h, k)))

  -- A page of an album's items that was decoded has one item with a key for each entry of its array, or
  -- none where nothing stands in the place of the array beside an album record; its token is the text of
  -- the cursor's slot, and empty only where that is empty or nothing stands there.
  pub decode_item_page_lem :
      (payload : Json) (page : ItemPage)
      → decode_item_page go payload ≡ decoded page
      → AreEntries (value_at 1 payload) (value_at 3 payload) page.items
        × IsTokenOf (value_at 2 payload) page.next_token
  decode_item_page_lem payload page =
      Gives-decoded
        (λ page.
          AreEntries (value_at 1 payload) (value_at 3 payload) page.items
          × IsTokenOf (value_at 2 payload) page.next_token)
        (decode_item_page go payload) page (item_page-Gives payload)

  timeline_page-Gives :
      (payload : Json)
      → Gives
          (λ page.
            AreAllOf HasKey (value_at 0 payload) page.items
            × IsTokenOf (value_at 1 payload) page.next_token)
          (decode_timeline_page go payload)
  unfolding decode_timeline_page at Gives
  timeline_page-Gives payload =
      Gives-bind (AreAllOf HasKey (value_at 0 payload)) _
        (decode_media_items go (at (root_of payload "lcxiM") 0)) _
        (decode_media_items-AreAllOf (at (root_of payload "lcxiM") 0))
        (λ items h.
          Gives-bind (IsTokenOf (value_at 1 payload)) _ (cursor go (at (root_of payload "lcxiM") 1))
            _ (cursor-IsTokenOf (at (root_of payload "lcxiM") 1)) (λ token k. (h, k)))

  -- A page of the library that was decoded has one item with a key for each element of its array, and the
  -- text of the cursor's slot for a token, empty where nothing stands there.
  pub decode_timeline_page_lem :
      (payload : Json) (page : ItemPage)
      → decode_timeline_page go payload ≡ decoded page
      → AreAllOf HasKey (value_at 0 payload) page.items
        × IsTokenOf (value_at 1 payload) page.next_token
  decode_timeline_page_lem payload page =
      Gives-decoded
        (λ page.
          AreAllOf HasKey (value_at 0 payload) page.items
          × IsTokenOf (value_at 1 payload) page.next_token)
        (decode_timeline_page go payload) page (timeline_page-Gives payload)

  abbrev pub IsAlbumsPage : Json → AlbumPage → Type 0
  IsAlbumsPage payload page =
      AreAllOf HasId (value_at 0 payload) page.albums
      × IsTokenOf (value_at 1 payload) page.next_token

  page_of-Gives :
      (payload : Json) (rpc : String) (decode : Tree → Decoded Album) (want : String)
      → ((t : Tree) → Gives HasId (decode t))
      → Gives
          (IsAlbumsPage payload)
          (page_of go payload rpc decode want (list (at (root_of payload rpc) 0)))
  unfolding list at Gives driftf
  page_of-Gives payload rpc decode want h = elim (list_of-cases (value_at 0 payload)) [
    | inl e ↦ rw e tt
    | inr (elements, e, f) ↦ rw f (
        Gives-bind (λ all. (length all ≡ count elements) × All HasId all) _
          (decode_each decode (at (root_of payload rpc) 0) 0 elements) _
          (decode_each-Gives HasId decode h (at (root_of payload rpc) 0) 0 elements)
          (λ all k.
            Gives-bind (IsTokenOf (value_at 1 payload)) _ (cursor go (at (root_of payload rpc) 1)) _
              (cursor-IsTokenOf (at (root_of payload rpc) 1))
              (λ token l. ((elements, e, k.0, k.1), l))))
  ]

  -- A page of either listing of albums that was decoded has one album with an id for each element of its
  -- array, and the text of the cursor's slot for a token, empty where nothing stands there.
  pub decode_albums_lem :
      (payload : Json) (page : AlbumPage)
      → (decode_album_page go payload ≡ decoded page)
        ⊎ (decode_shared_album_page go payload ≡ decoded page)
      → AreAllOf HasId (value_at 0 payload) page.albums
        × IsTokenOf (value_at 1 payload) page.next_token
  unfolding decode_album_page decode_shared_album_page
  decode_albums_lem payload page (inl e) =
      Gives-decoded (IsAlbumsPage payload) _ page
        (page_of-Gives payload "F2A0H" (decode_album go) "an array of albums"
          (decode_album-HasId go))
        e
  decode_albums_lem payload page (inr e) =
      Gives-decoded (IsAlbumsPage payload) _ page
        (page_of-Gives payload "Z5xsfc" (decode_shared_album go) "an array of shared albums"
          (decode_shared_album-HasId go))
        e
