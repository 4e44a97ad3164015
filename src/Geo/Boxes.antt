-- ===== src/Geo/Boxes.antt =====
-- internal/geo/isobmff.go: the boxes of an ISO base media file. A position is an int64 bit pattern; a
-- 64-bit size can wrap a box's end around to a negative position.
use gpb.Geo.Bytes.{
  Read, got, absent, unreadable, panicked, unfinished, ◌>>=◌, big_endian, value_of, same_bytes,
  add64, sub64, lt64, is_negative, read_full, read_up_to,
}
use gpb.Common.{
  ℕ, zero, suc, ◌+◌, ◌*◌, ◌^◌, ◌||◌, not, Option, none, some, List, [], ◌∷◌, ltb, ◌==◌, nat_eq,
  if◌then◌else◌, length, take, drop,
}

abbrev pub box_read_limit : ℕ
box_read_limit = 16 * 2 ^ 20

pub record Box : Type 0 where
  pub kind : List ℕ
  pub start : ℕ
  pub body : ℕ
  pub end : ℕ
  pub header : ℕ

-- Seek and ReadFull: a seek to a negative position fails.
abbrev pub read_at : List ℕ → ℕ → ℕ → Read (List ℕ)
read_at file at n = if is_negative at then unreadable else read_full file at n

-- The box of a known size and header: `absent`, the kind "", where it does not fit.
unfoldable pub box_of : ℕ → ℕ → List ℕ → ℕ → ℕ → Read Box
box_of at end kind header size =
    if lt64 size header || lt64 end (add64 at size)
    then absent
    else got (record {
      kind = kind;
      start = at;
      body = add64 at header;
      end = add64 at size;
      header = header;
    })

-- The box of size 1, whose size is the 64 bits after its header.
unfoldable pub long_box : List ℕ → ℕ → ℕ → List ℕ → Read Box
unfolding box_of
long_box file at end kind =
    read_at file (add64 at 8) 8 >>= λ long. box_of at end kind 16 (value_of big_endian long)

unfoldable pub sized_box : List ℕ → ℕ → ℕ → List ℕ → ℕ → Read Box
unfolding box_of long_box
sized_box file at end kind size =
    if size == 0
    then box_of at end kind 8 (sub64 end at)
    else if size == 1
    then long_box file at end kind
    else box_of at end kind 8 size

unfoldable pub read_box_header : List ℕ → ℕ → ℕ → Read Box
unfolding sized_box
read_box_header file at end =
    if lt64 end (add64 at 8)
    then absent
    else read_at file at 8 >>= λ header.
        sized_box file at end (drop 4 header) (value_of big_endian (take 4 header))

abbrev pub with_child : Box → Option (Read (List Box)) → Option (Read (List Box))
with_child child none = none
with_child child (some rest) = some (rest >>= λ children. got (child ∷ children))

-- A loop over boxes ends at one that does not fit, and on an error.
abbrev pub with_header : (Box → Option (Read (List Box))) → Read Box → Option (Read (List Box))
with_header go_on (got child) = go_on child
with_header go_on absent = some (got [])
with_header go_on unreadable = some unreadable
with_header go_on unfinished = some unfinished
with_header go_on panicked = some panicked

-- The loop of childrenOf; `none` where the fuel, one unit for a box, runs out.
unfoldable pub children_from : List ℕ → ℕ → ℕ → ℕ → Option (Read (List Box))
unfolding read_box_header
children_from file end zero at = none
children_from file end (suc fuel) at =
    if not (lt64 at end)
    then some (got [])
    else with_header (λ child. with_child child (children_from file end fuel child.end))
        (read_box_header file at end)

abbrev pub returned {ℓ} : {A : Type ℓ} → Option (Read A) → Read A
returned none = unfinished
returned (some answer) = answer

-- As many units as bytes and two more are enough, which is a theorem.
unfoldable pub children_of : List ℕ → Box → ℕ → Read (List Box)
unfolding children_from
children_of file parent skip =
    returned (children_from file parent.end (length file + 2) (add64 parent.body skip))

abbrev pub first_of_kind : List ℕ → List Box → Read Box
first_of_kind kind [] = absent
first_of_kind kind (child ∷ children) =
    if same_bytes child.kind kind then got child else first_of_kind kind children

unfoldable pub child_of : List ℕ → Box → ℕ → List ℕ → Read Box
unfolding children_of
child_of file parent skip kind = children_of file parent skip >>= first_of_kind kind

unfoldable pub body_of : List ℕ → Box → Read (List ℕ)
body_of file box =
    let size = sub64 box.end box.body in
    if lt64 box_read_limit size
    then got []
    else if is_negative box.body
    then unreadable
    else if is_negative size
    then got []
    else got (read_up_to file box.body size)

unfoldable pub meta_version_skip : List ℕ → Box → Read ℕ
meta_version_skip file meta =
    if is_negative meta.body
    then unreadable
    else if ltb (length file) (meta.body + 8)
    then got 0
    else if same_bytes (take 4 (drop (meta.body + 4) file)) (0x68 ∷ 0x64 ∷ 0x6C ∷ 0x72 ∷ [])
    then got 0
    else got 4
