-- ===== src/Gphotos/Privacy.antt =====
-- internal/gphotos: the error of a decoder says nothing of a payload's texts and numbers.
use Prim.Native.String.{len}
use gpb.Gphotos.Json.{Json, null, string, number, boolean, array, object, Conversions}
use gpb.Gphotos.Tree.{
  Tree, root_of, value_at, at, last, only, present, text, list_of, list, Decoded,
}
use gpb.Gphotos.Items.{
  MediaItem, decode_each, decode_media_item, each_item, decode_media_items, decode_album_entries,
  decode_item_page, decode_timeline_page,
}
use gpb.Gphotos.Albums.{
  Album, decode_album, page_of, decode_album_page, shared_with_id, decode_shared_album,
  decode_shared_album_page,
}
use gpb.Common.{
  ℕ, ◌&&◌, not, ◌≡◌, ◌∙◌, ap, inl, inr, refl, some, String, ◌==◌, string_eq, Bool-cases,
}
use gpb.Gphotos.Redaction.{
  redact, redact_elements, redact_tree, value_at-redact, at-redact, last-redact, only-redact,
  present-redact,
}
use gpb.Gphotos.DriftPrivacy.{
  error_of, error_of-bind, driftf-redact, driftf_at-redact, nonempty-redact, decode_each-redact,
  cursor_at-redact,
}

module _ (f : String → String) (g : ℕ → ℕ) where
  module _ (go : Conversions) (same_length : (s : String) → len (f s) ≡ len s)
      (same_emptiness : (s : String) → (f s == "") ≡ (s == "")) where
    decode_media_item-redact :
        (t : Tree)
        → error_of (decode_media_item go (redact_tree f g t)) ≡ error_of (decode_media_item go t)
    unfolding decode_media_item text at
    decode_media_item-redact t =
        rw (value_at-redact f g 0 t.value)
          (elim (nonempty-redact f g go same_length same_emptiness (value_at 0 t.value)) [
            | inl (e, i) ↦
                rw (e, i)
                  (ap (error_of {A = MediaItem})
                    (driftf_at-redact f g go same_length same_emptiness t 0 "a media key"))
            | inr (s, s', e, i) ↦ rw (e, i) refl
          ])

    decode_album-redact :
        (t : Tree) → error_of (decode_album go (redact_tree f g t)) ≡ error_of (decode_album go t)
    unfolding decode_album text at
    decode_album-redact t =
        rw (value_at-redact f g 6 t.value)
          (elim (nonempty-redact f g go same_length same_emptiness (value_at 6 t.value)) [
            | inl (e, i) ↦
                rw (e, i)
                  (ap (error_of {A = Album})
                    (driftf_at-redact f g go same_length same_emptiness t 6 "an album id"))
            | inr (s, s', e, i) ↦ rw (e, i) refl
          ])

    only-last-redact :
        (t : Tree) → only (last (redact_tree f g t)) ≡ redact_tree f g (only (last t))
    only-last-redact t = ap only (last-redact f g t) ∙ only-redact f g (last t)

    shared_with_id-redact :
        (t : Tree) (s s' : String)
        → error_of (shared_with_id go (redact_tree f g t) (some s'))
          ≡ error_of (shared_with_id go t (some s))
    shared_with_id-redact t s s' =
        rw (only-last-redact t, present-redact f g (only (last t)))
          (elim (Bool-cases (present (only (last t)))) [
            | inl e ↦ rw e refl
            | inr e ↦ rw e (
                ap error_of (
                  driftf-redact f g go same_length same_emptiness (only (last t))
                    "a shared album record"))
          ])

    decode_shared_album-redact :
        (t : Tree)
        → error_of (decode_shared_album go (redact_tree f g t))
          ≡ error_of (decode_shared_album go t)
    unfolding decode_shared_album text at
    decode_shared_album-redact t =
        rw (value_at-redact f g 0 t.value)
          (elim (nonempty-redact f g go same_length same_emptiness (value_at 0 t.value)) [
            | inl (e, i) ↦
                rw (e, i)
                  (ap (error_of {A = Album})
                    (driftf_at-redact f g go same_length same_emptiness t 0 "a shared album id"))
            | inr (s, s', e, i) ↦ rw (e, i) (shared_with_id-redact t s s')
          ])

    each_item-redact :
        (t : Tree) (value : Json)
        → error_of (each_item go (redact_tree f g t) (list_of (redact f g value)))
          ≡ error_of (each_item go t (list_of value))
    unfolding redact
    each_item-redact t null =
        ap error_of (driftf-redact f g go same_length same_emptiness t "an array of media items")
    each_item-redact t (string value) =
        ap error_of (driftf-redact f g go same_length same_emptiness t "an array of media items")
    each_item-redact t (number value) =
        ap error_of (driftf-redact f g go same_length same_emptiness t "an array of media items")
    each_item-redact t (boolean value) =
        ap error_of (driftf-redact f g go same_length same_emptiness t "an array of media items")
    each_item-redact t (array elements) =
        decode_each-redact f g go same_length same_emptiness (decode_media_item go)
          decode_media_item-redact t 0 elements
    each_item-redact t (object members) =
        ap error_of (driftf-redact f g go same_length same_emptiness t "an array of media items")

    decode_media_items-redact :
        (t : Tree)
        → error_of (decode_media_items go (redact_tree f g t)) ≡ error_of (decode_media_items go t)
    unfolding decode_media_items list
    decode_media_items-redact t = each_item-redact t t.value

    items_at-redact :
        (t : Tree) (index : ℕ)
        → error_of (decode_media_items go (at (redact_tree f g t) index))
          ≡ error_of (decode_media_items go (at t index))
    items_at-redact t index =
        ap (λ u. error_of (decode_media_items go u)) (at-redact f g t index)
        ∙ decode_media_items-redact (at t index)

    present_at-redact :
        (t : Tree) (index : ℕ) → present (at (redact_tree f g t) index) ≡ present (at t index)
    present_at-redact t index = ap present (at-redact f g t index) ∙ present-redact f g (at t index)

    decode_album_entries-redact :
        (t : Tree)
        → error_of (decode_album_entries go (redact_tree f g t))
          ≡ error_of (decode_album_entries go t)
    unfolding decode_album_entries
    decode_album_entries-redact t =
        rw (present_at-redact t 1, present_at-redact t 3)
          (elim (Bool-cases (not (present (at t 1)) && present (at t 3))) [
            | inl e ↦ rw e refl
            | inr e ↦ rw e (items_at-redact t 1)
          ])

    albums-redact :
        (rpc want : String) (decode : Tree → Decoded Album)
        → ((t : Tree) → error_of (decode (redact_tree f g t)) ≡ error_of (decode t))
        → (payload value : Json)
        → error_of (page_of go (redact f g payload) rpc decode want (list_of (redact f g value)))
          ≡ error_of (page_of go payload rpc decode want (list_of value))
    unfolding redact
    albums-redact rpc want decode h payload null =
        ap error_of
          (driftf_at-redact f g go same_length same_emptiness (root_of payload rpc) 0 want)
    albums-redact rpc want decode h payload (string value) =
        ap error_of
          (driftf_at-redact f g go same_length same_emptiness (root_of payload rpc) 0 want)
    albums-redact rpc want decode h payload (number value) =
        ap error_of
          (driftf_at-redact f g go same_length same_emptiness (root_of payload rpc) 0 want)
    albums-redact rpc want decode h payload (boolean value) =
        ap error_of
          (driftf_at-redact f g go same_length same_emptiness (root_of payload rpc) 0 want)
    albums-redact rpc want decode h payload (object members) =
        ap error_of
          (driftf_at-redact f g go same_length same_emptiness (root_of payload rpc) 0 want)
    albums-redact rpc want decode h payload (array elements) =
        error_of-bind _ _ _ _
          (ap (λ u. error_of (decode_each decode u 0 (redact_elements f g elements)))
              (at-redact f g (root_of payload rpc) 0)
            ∙ decode_each-redact f g go same_length same_emptiness decode h
                (at (root_of payload rpc) 0) 0 elements)
          (λ all others.
            error_of-bind _ _ _ _
              (cursor_at-redact f g go same_length same_emptiness (root_of payload rpc) 1)
              (λ token other. refl))

    item_page-redact :
        (payload : Json)
        → error_of (decode_item_page go (redact f g payload))
          ≡ error_of (decode_item_page go payload)
    unfolding decode_item_page
    item_page-redact payload =
        error_of-bind _ _ _ _ (decode_album_entries-redact (root_of payload "snAcKc"))
          (λ items others.
            error_of-bind _ _ _ _
              (cursor_at-redact f g go same_length same_emptiness (root_of payload "snAcKc") 2)
              (λ token other. refl))

    timeline_page-redact :
        (payload : Json)
        → error_of (decode_timeline_page go (redact f g payload))
          ≡ error_of (decode_timeline_page go payload)
    unfolding decode_timeline_page
    timeline_page-redact payload =
        error_of-bind _ _ _ _ (items_at-redact (root_of payload "lcxiM") 0) (λ items others.
          error_of-bind _ _ _ _
            (cursor_at-redact f g go same_length same_emptiness (root_of payload "lcxiM") 1)
            (λ token other. refl))

    album_page-redact :
        (payload : Json)
        → error_of (decode_album_page go (redact f g payload))
          ≡ error_of (decode_album_page go payload)
    unfolding decode_album_page list at
    album_page-redact payload = rw (value_at-redact f g 0 payload) (
        albums-redact "F2A0H" "an array of albums" (decode_album go) decode_album-redact payload
          (value_at 0 payload))

    shared_page-redact :
        (payload : Json)
        → error_of (decode_shared_album_page go (redact f g payload))
          ≡ error_of (decode_shared_album_page go payload)
    unfolding decode_shared_album_page list at
    shared_page-redact payload = rw (value_at-redact f g 0 payload) (
        albums-redact "Z5xsfc" "an array of shared albums" (decode_shared_album go)
          decode_shared_album-redact payload (value_at 0 payload))

    -- Whether a decoder of a page fails, and with what error, stays as it is when the texts of the payload
    -- are replaced by others of the same length, empty where they were, and its numbers by any.
    pub error_of-redact :
        (payload : Json)
        → (error_of (decode_item_page go (redact f g payload))
            ≡ error_of (decode_item_page go payload))
          × (error_of (decode_timeline_page go (redact f g payload))
              ≡ error_of (decode_timeline_page go payload))
          × (error_of (decode_album_page go (redact f g payload))
              ≡ error_of (decode_album_page go payload))
          × (error_of (decode_shared_album_page go (redact f g payload))
              ≡ error_of (decode_shared_album_page go payload))
    error_of-redact payload = (
      item_page-redact payload,
      timeline_page-redact payload,
      album_page-redact payload,
      shared_page-redact payload,
    )
