-- ===== src/Rooms/Listing.antt =====
-- `list_rooms`: sorted by name, and every room once with its number of members.
use mathlib.Core.List.{Perm}
use mathlib.Core.List.Perm
use group_chat.Prelude.{
  ◌≡◌, refl, true, false, List, [], ◌∷◌, Str, length, map, values, arith, All, if_intro,
}
use group_chat.Rooms.Defs.{Rooms, Listed, le_str, insert_sorted, sorted, listed, list_rooms}

le_str_total : (s t : Str) → le_str s t ≡ false → le_str t s ≡ true
unfolding le_str
le_str_total [] t h = cc
le_str_total (a ∷ s) [] h = refl
le_str_total (a ∷ s) (b ∷ t) h = ground (arith, le_str_total s t)

le_str_trans : (s t u : Str) → le_str s t ≡ true → le_str t u ≡ true → le_str s u ≡ true
unfolding le_str
le_str_trans [] t u h k = refl
le_str_trans (a ∷ s) [] u h k = cc
le_str_trans (a ∷ s) (b ∷ t) [] h k = cc
le_str_trans (a ∷ s) (b ∷ t) (c ∷ u) h k = ground (arith, le_str_trans s t u)

-- Each entry's name is at most every later one's.
abbrev IsSorted : List Listed → Type 0
IsSorted [] = Unit
IsSorted (r ∷ l) = All (λ s. le_str r.name s.name ≡ true) l × IsSorted l

All-le_of :
    (r s : Listed) (l : List Listed)
    → le_str r.name s.name ≡ true
    → All (λ u. le_str s.name u.name ≡ true) l
    → All (λ u. le_str r.name u.name ≡ true) l
All-le_of r s [] h a = tt
All-le_of r s (u ∷ l) h a = (le_str_trans r.name s.name u.name h a.0, All-le_of r s l h a.1)

All-insert_sorted :
    (P : Listed → Type 0) (r : Listed) (l : List Listed) → P r → All P l → All P (insert_sorted r l)
unfolding insert_sorted
All-insert_sorted P r [] h a = (h, tt)
All-insert_sorted P r (s ∷ l) h a =
    if_intro (All P) (le_str r.name s.name) (λ _. (h, a))
      (λ _. (a.0, All-insert_sorted P r l h a.1))

insert_sorted-IsSorted : (r : Listed) (l : List Listed) → IsSorted l → IsSorted (insert_sorted r l)
unfolding insert_sorted
insert_sorted-IsSorted r [] h = (tt, tt)
insert_sorted-IsSorted r (s ∷ l) h =
    if_intro IsSorted (le_str r.name s.name) (λ le. ((le, All-le_of r s l le h.0), h))
      (λ gt. (
        All-insert_sorted (λ u. le_str s.name u.name ≡ true) r l (le_str_total r.name s.name gt)
            h.0,
        insert_sorted-IsSorted r l h.1,
      ))

sorted-IsSorted : (l : List Listed) → IsSorted (sorted l)
unfolding sorted
sorted-IsSorted [] = tt
sorted-IsSorted (r ∷ l) = insert_sorted-IsSorted r (sorted l) (sorted-IsSorted l)

insert_sorted-perm : (r : Listed) (l : List Listed) → Perm (insert_sorted r l) (r ∷ l)
unfolding insert_sorted
insert_sorted-perm r [] = Perm.refl (r ∷ [])
insert_sorted-perm r (s ∷ l) =
    if_intro (λ u. Perm u (r ∷ s ∷ l)) (le_str r.name s.name) (λ _. Perm.refl (r ∷ s ∷ l))
      (λ _. Perm.trans (Perm.cons s (insert_sorted-perm r l)) (Perm.swap r s l))

sorted-perm : (l : List Listed) → Perm (sorted l) l
unfolding sorted
sorted-perm [] = Perm.refl []
sorted-perm (r ∷ l) = Perm.trans (insert_sorted-perm r (sorted l)) (Perm.cons r (sorted-perm l))

-- The room list is sorted by name, and holds each room once, with the number of its members.
list_rooms-IsSorted_perm :
    (rooms : Rooms)
    → IsSorted (list_rooms rooms)
      × Perm
          (list_rooms rooms)
          (map (λ r. record { name = r.name; member_count = length r.members }) (values rooms))
unfolding list_rooms
list_rooms-IsSorted_perm rooms =
    (sorted-IsSorted (map listed (values rooms)), sorted-perm (map listed (values rooms)))
