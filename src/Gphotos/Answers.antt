-- ===== src/Gphotos/Answers.antt =====
-- internal/gphotos/batchexecute.go: which frame answers.
use gpb.Gphotos.Json.{Json}
use gpb.Gphotos.Frames.{
  Frame, string_in, optional_string, frame_with, frames_from_rows, payload_for,
}
use gpb.Common.{
  Bool, true, false, ◌||◌, not, ◌∙◌, ◌≡◌, ◌⊎◌, refl, Option, none, some, List, [], ◌∷◌, ◌++◌,
  String, ◌==◌, string_eq, All, arith,
}

-- A row that names another rpc, or carries no answer.
abbrev pub IsBookkeeping : String → List Json → Type 0
IsBookkeeping rpc_id row =
    ((optional_string row 1 == rpc_id) ≡ false) ⊎ ((optional_string row 2 == "") ≡ true)

skips : (a b : Bool) → (a ≡ false) ⊎ (b ≡ true) → (not a || b) ≡ true
skips a b h = ground (arith, h)

module _ (parse : String → Option Json) (rpc_id : String) where
  payload_for-row :
      (row : List Json) (tag : Option String) (rest : List Frame)
      → IsBookkeeping rpc_id row
      → payload_for parse (frame_with row tag rest) rpc_id ≡ payload_for parse rest rpc_id
  unfolding payload_for
  payload_for-row row none rest h = refl
  payload_for-row row (some tag) rest h =
      rw (skips (optional_string row 1 == rpc_id) (optional_string row 2 == "") h) refl

  -- Rows that name another rpc or carry no answer do not change the payload that is found for an rpc in
  -- the rows behind them, nor the error.
  pub payload_for-append :
      (others rows : List (List Json))
      → All (IsBookkeeping rpc_id) others
      → payload_for parse (frames_from_rows (others ++ rows)) rpc_id
        ≡ payload_for parse (frames_from_rows rows) rpc_id
  unfolding frames_from_rows
  payload_for-append [] rows h = refl
  payload_for-append ([] ∷ others) rows h = payload_for-append others rows h.1
  payload_for-append ((field ∷ row) ∷ others) rows h =
      payload_for-row (field ∷ row) (string_in field) (frames_from_rows (others ++ rows)) h.0
      ∙ payload_for-append others rows h.1
