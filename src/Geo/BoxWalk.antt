-- ===== src/Geo/BoxWalk.antt =====
-- internal/geo/isobmff.go: walks over boxes go forwards, and end.
use gpb.Geo.Bytes.{
  Read, got, absent, unreadable, panicked, unfinished, big_endian, value_of, same_bytes, add64,
  sub64, lt64, is_negative, read_full,
}
use gpb.Geo.Boxes.{
  Box, box_of, long_box, sized_box, read_at, read_box_header, with_child, with_header,
  children_from, children_of, returned, first_of_kind, child_of, body_of, meta_version_skip,
  box_read_limit,
}
use gpb.Geo.Ensures.{Ensures, Returns, Ends, Ends-if, Ensures-if, Ensures-bind, Ensures-map}
use gpb.Common.{
  ℕ, zero, suc, ◌+◌, ◌≤◌, ◌<◌, ◌^◌, Bool, false, ◌||◌, not, Option, none, some, ◌≡◌, ◌≢◌, subst,
  List, [], ◌∷◌, ltb, leb, ◌==◌, nat_eq, length, take, drop, length-take, length-drop, All, arith,
}

-- The names of boxes have four bytes.
abbrev pub HasKind : Box → Type 0
HasKind box = length box.kind ≡ 4

-- A box with a header at a position of the file, which it ends behind.
abbrev pub IsBoxAt : List ℕ → ℕ → Box → Type 0
IsBoxAt file at box = HasKind box × (at + 8 ≤ box.end) × (at + 8 ≤ length file)

read_full-Ensures :
    (file : List ℕ) (at n : ℕ)
    → Ensures (λ bytes. (length bytes ≡ n) × (at + n ≤ length file)) (read_full file at n)
unfolding Ensures
read_full-Ensures file at n =
    Ensures-if (λ bytes. (length bytes ≡ n) × (at + n ≤ length file)) (leb (at + n) (length file))
      (got (take n (drop at file))) unreadable
      (λ e. ground (arith, e, length-take n (drop at file), length-drop at file)) (λ e. tt)

or_false : (a b : Bool) → (a || b) ≡ false → a ≡ false
or_false a b h = ground (arith, h)

read_at-Ensures :
    (file : List ℕ) (at n : ℕ)
    → Ensures
        (λ bytes. (length bytes ≡ n) × (at + n ≤ length file) × (at < 2 ^ 63))
        (read_at file at n)
unfolding Ensures
read_at-Ensures file at n =
    Ensures-if (λ bytes. (length bytes ≡ n) × (at + n ≤ length file) × (at < 2 ^ 63))
      (is_negative at) unreadable (read_full file at n) (λ e. tt)
      (λ e.
        Ensures-map (λ bytes. (length bytes ≡ n) × (at + n ≤ length file)) _ (read_full file at n)
          (λ bytes h. (h.0, h.1, ground (arith, e))) (read_full-Ensures file at n))

read_at-Returns : (file : List ℕ) (at n : ℕ) → Returns (read_at file at n)
read_at-Returns file at n =
    Ensures-map (λ bytes. (length bytes ≡ n) × (at + n ≤ length file) × (at < 2 ^ 63))
      (λ bytes. Unit) (read_at file at n) (λ bytes h. tt) (read_at-Ensures file at n)

end_of_box :
    (at size header : ℕ)
    → at < 2 ^ 63
    → 8 ≤ header
    → header ≤ 16
    → lt64 size header ≡ false
    → at + 8 ≤ add64 at size
end_of_box at size header h k l e = ground (arith, h, k, l, e)

module _ (file : List ℕ) (at : ℕ) (end : ℕ) (kind : List ℕ) where
  box_of-Ensures :
      (header size : ℕ)
      → at < 2 ^ 63
      → at + 8 ≤ length file
      → 8 ≤ header
      → header ≤ 16
      → length kind ≡ 4
      → Ensures (IsBoxAt file at) (box_of at end kind header size)
  unfolding box_of Ensures
  box_of-Ensures header size h f k l four =
      Ensures-if (IsBoxAt file at) (lt64 size header || lt64 end (add64 at size)) absent (got _)
        (λ e. tt)
        (λ e. (four, end_of_box at size header h k l (or_false (lt64 size header) _ e), f))

  sized_box-Ensures :
      (size : ℕ)
      → at < 2 ^ 63
      → at + 8 ≤ length file
      → length kind ≡ 4
      → Ensures (IsBoxAt file at) (sized_box file at end kind size)
  unfolding sized_box long_box Ensures
  sized_box-Ensures size h f four =
      Ensures-if (IsBoxAt file at) (size == 0) _ _
        (λ e. box_of-Ensures 8 (sub64 end at) h f (omega arith) (omega arith) four)
        (λ e.
          Ensures-if (IsBoxAt file at) (size == 1) _ _
            (λ i.
              Ensures-bind (λ bytes. Unit) (IsBoxAt file at) (read_at file (add64 at 8) 8) _
                (read_at-Returns file (add64 at 8) 8)
                (λ long u.
                  box_of-Ensures 16 (value_of big_endian long) h f (omega arith) (omega arith)
                    four))
            (λ i. box_of-Ensures 8 size h f (omega arith) (omega arith) four))

pub read_box_header-Ensures :
    (file : List ℕ) (at end : ℕ) → Ensures (IsBoxAt file at) (read_box_header file at end)
unfolding read_box_header Ensures
read_box_header-Ensures file at end =
    Ensures-if (IsBoxAt file at) (lt64 end (add64 at 8)) absent _ (λ e. tt)
      (λ e.
        Ensures-bind (λ bytes. (length bytes ≡ 8) × (at + 8 ≤ length file) × (at < 2 ^ 63))
          (IsBoxAt file at) (read_at file at 8) _ (read_at-Ensures file at 8)
          (λ header h.
            sized_box-Ensures file at end (drop 4 header) (value_of big_endian (take 4 header))
              (h.2) (h.1) (omega (arith, length-drop 4 header, h.0))))

with_child-Ends :
    (child : Box) (rest : Option (Read (List Box)))
    → HasKind child
    → Ends (All HasKind) rest
    → Ends (All HasKind) (with_child child rest)
unfolding Ends
with_child-Ends child none h k = k
with_child-Ends child (some rest) h k =
    Ensures-bind (All HasKind) (All HasKind) rest _ k (λ children all. (h, all))

with_header-Ends :
    (file : List ℕ) (at : ℕ) (go_on : Box → Option (Read (List Box))) (header : Read Box)
    → Ensures (IsBoxAt file at) header
    → ((child : Box) → IsBoxAt file at child → Ends (All HasKind) (go_on child))
    → Ends (All HasKind) (with_header go_on header)
unfolding Ends Ensures
with_header-Ends file at go_on (got child) h k = k child h
with_header-Ends file at go_on absent h k = tt
with_header-Ends file at go_on unreadable h k = tt
with_header-Ends file at go_on unfinished h k = elim h [ ]
with_header-Ends file at go_on panicked h k = h

children_from-Ends :
    (file : List ℕ) (end fuel at : ℕ)
    → length file < at + fuel
    → 0 < fuel
    → Ends (All HasKind) (children_from file end fuel at)
unfolding children_from Ends Ensures
children_from-Ends file end zero at h k = ground (arith, k)
children_from-Ends file end (suc fuel) at h k =
    Ends-if (All HasKind) (not (lt64 at end)) (some (got [])) _ (λ e. tt)
      (λ e.
        with_header-Ends file at _ (read_box_header file at end)
          (read_box_header-Ensures file at end)
          (λ child c. with_child-Ends child _ (c.0) (
            children_from-Ends file end fuel child.end (omega (arith, h, c.1, c.2))
              (omega (arith, h, c.2)))))

-- The fuel of childrenOf is enough for every file, parent and skip.
pub children_from-IsDone :
    (file : List ℕ) (parent : Box) (skip : ℕ)
    → children_from file parent.end (length file + 2) (add64 parent.body skip) ≢ none
unfolding Ends
children_from-IsDone file parent skip e = subst (Ends (All HasKind)) e (
    children_from-Ends file parent.end (length file + 2) (add64 parent.body skip) (omega arith)
      (omega arith))

returned-Ensures :
    (answer : Option (Read (List Box)))
    → Ends (All HasKind) answer
    → Ensures (All HasKind) (returned answer)
unfolding Ends
returned-Ensures none h = elim h [ ]
returned-Ensures (some answer) h = h

pub children_of-Ensures :
    (file : List ℕ) (parent : Box) (skip : ℕ) → Ensures (All HasKind) (children_of file parent skip)
unfolding children_of
children_of-Ensures file parent skip = returned-Ensures _ (
    children_from-Ends file parent.end (length file + 2) (add64 parent.body skip) (omega arith)
      (omega arith))

first_of_kind-Ensures :
    (kind : List ℕ) (children : List Box) → Returns (first_of_kind kind children)
unfolding Ensures
first_of_kind-Ensures kind [] = tt
first_of_kind-Ensures kind (child ∷ children) =
    Ensures-if (λ box. Unit) (same_bytes child.kind kind) (got child) _ (λ e. tt)
      (λ e. first_of_kind-Ensures kind children)

pub child_of-Returns :
    (file : List ℕ) (parent : Box) (skip : ℕ) (kind : List ℕ)
    → Returns (child_of file parent skip kind)
unfolding child_of
child_of-Returns file parent skip kind =
    Ensures-bind (All HasKind) (λ box. Unit) (children_of file parent skip) _
      (children_of-Ensures file parent skip) (λ children all. first_of_kind-Ensures kind children)

pub body_of-Returns : (file : List ℕ) (box : Box) → Returns (body_of file box)
unfolding body_of Ensures
body_of-Returns file box =
    Ensures-if (λ body. Unit) (lt64 box_read_limit (sub64 box.end box.body)) (got []) _ (λ e. tt)
      (λ e.
        Ensures-if (λ body. Unit) (is_negative box.body) unreadable _ (λ i. tt)
          (λ i.
            Ensures-if (λ body. Unit) (is_negative (sub64 box.end box.body)) (got []) (got _)
              (λ j. tt) (λ j. tt)))

pub meta_version_skip-Returns : (file : List ℕ) (meta : Box) → Returns (meta_version_skip file meta)
unfolding meta_version_skip Ensures
meta_version_skip-Returns file meta =
    Ensures-if (λ (skip : ℕ). Unit) (is_negative meta.body) unreadable _ (λ e. tt)
      (λ e.
        Ensures-if (λ (skip : ℕ). Unit) (ltb (length file) (meta.body + 8)) (got 0) _ (λ i. tt)
          (λ i.
            Ensures-if (λ (skip : ℕ). Unit)
              (same_bytes (take 4 (drop (meta.body + 4) file)) (0x68 ∷ 0x64 ∷ 0x6C ∷ 0x72 ∷ []))
              (got 0) (got 4) (λ j. tt) (λ j. tt)))
