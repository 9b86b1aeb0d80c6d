-- ===== src/Announce/Nickname.antt =====
-- What `tagged_nickname` of crates/bot/src/announce.rs answers.
use ldktela.Base.{
  ℕ, ◌+◌, ◌≤◌, ◌<◌, ◌≡◌, refl, true, Option, none, some, [], ◌∷◌, ◌++◌, inl, inr, leb, Bool-cases,
  arith, ap,
}
use mathlib.Core.Path.{subst}
use ldktela.Announce.{
  Name, prefix, nick_limit, len_utf16, count_utf16, starts_with, take_room, is_tagged, base_name,
  tagged_nickname,
}

-- The next character of `rest` would pass `room`, `used` units being spent.
abbrev pub Full : ℕ → ℕ → Name → Type 0
Full room used [] = Unit
Full room used (c ∷ cs) = room < used + len_utf16 c

pub count_utf16-append : (xs ys : Name) → count_utf16 (xs ++ ys) ≡ count_utf16 xs + count_utf16 ys
unfolding count_utf16
count_utf16-append [] ys = omega arith
count_utf16-append (x ∷ xs) ys = omega (arith, count_utf16-append xs ys)

pub starts_with-append : (xs ys : Name) → starts_with xs (xs ++ ys) ≡ true
unfolding starts_with
starts_with-append [] ys = refl
starts_with-append (x ∷ xs) ys = ground (arith, starts_with-append xs ys)

-- The start of `base` that is kept, and what is cut off.
take_room_split :
    (room used : ℕ) (base : Name)
    → used ≤ room
    → (cut : Name) × (base ≡ take_room room used base ++ cut)
      × (used + count_utf16 (take_room room used base) ≤ room)
      × Full room (used + count_utf16 (take_room room used base)) cut
unfolding take_room count_utf16
take_room_split room used [] h = ([], refl, omega arith, tt)
take_room_split room used (c ∷ cs) h = elim (Bool-cases (leb (used + len_utf16 c) room)) [
  | inl e ↦
      let (cut, whole, fits, full) = take_room_split room (used + len_utf16 c) cs (ground arith) in
      rw e (
        cut,
        ap (λ (t : Name). c ∷ t) whole,
        omega (arith, fits),
        subst (λ (n : ℕ). Full room n cut) (omega arith) full,
      )
  | inr e ↦ rw e (c ∷ cs, refl, omega arith, ground arith)
]

tagged_form :
    (current : Option Name) (username nick : Name)
    → tagged_nickname current username ≡ some nick
    → nick ≡ prefix ++ take_room 23 0 (base_name current username)
unfolding tagged_nickname nick_limit prefix count_utf16 len_utf16
tagged_form current username nick h = elim (Bool-cases (is_tagged (base_name current username))) [
  | inl e ↦ cc
  | inr e ↦ cc
]

count_prefix : (kept : Name) → count_utf16 (prefix ++ kept) ≡ 9 + count_utf16 kept
unfolding prefix count_utf16 len_utf16
count_prefix kept = count_utf16-append prefix kept

pub tagged_again : (kept other : Name) → tagged_nickname (some (prefix ++ kept)) other ≡ none
unfolding tagged_nickname base_name is_tagged
tagged_again kept other = rw (starts_with-append prefix kept) refl

-- A tag is the prefix and as much of the name as fits: nick or username is cut once the next character
-- would pass 32 UTF-16 units, and a name that has the tag is not tagged again, under any username.
pub tagged_nickname_lem :
    (current : Option Name) (username nick : Name)
    → tagged_nickname current username ≡ some nick
    → (kept : Name) × (cut : Name) × (nick ≡ prefix ++ kept)
      × (base_name current username ≡ kept ++ cut)
      × (count_utf16 nick ≤ 32)
      × Full 32 (count_utf16 nick) cut
      × ((other : Name) → tagged_nickname (some nick) other ≡ none)
tagged_nickname_lem current username nick h =
    let base : Name = base_name current username in
    let kept : Name = take_room 23 0 base in
    let form = tagged_form current username nick h in
    let (cut, whole, fits, full) = take_room_split 23 0 base (omega arith) in
    rw form (
      kept,
      cut,
      refl,
      whole,
      omega (arith, count_prefix kept, fits),
      shift _ _ (count_prefix kept) cut full,
      tagged_again kept,
    )
  where
    shift : (n m : ℕ) → m ≡ 9 + n → (cut : Name) → Full 23 (0 + n) cut → Full 32 m cut
    shift n m e [] f = tt
    shift n m e (c ∷ cs) f = omega (arith, e, f)
