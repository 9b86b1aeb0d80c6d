-- ===== src/Desktop/Camera/Choice.antt =====
-- Which format `choose_format` of desktop/src-tauri/src/camera/mod.rs takes among those offered.
use ldktela.Base.{
  ℕ, Bool, true, false, not, ◌&&◌, ◌||◌, Option, some, List, [], ◌∷◌, leb, ltb, ◌==◌, if◌then◌else◌,
  keep_if, any, all, ◌≡◌, refl, ◌∙◌, sym, arith,
}
use mathlib.Core.Path.{subst}
use ldktela.Desktop.{Size}
use ldktela.Desktop.Camera.{
  Format, fits, area, least, min_by, is_smaller, is_nearer, max_area, choose_in, choose_format,
}
use ldktela.Desktop.Camera.Search.{
  max_area-first, least-lem, least-holds, is_smaller_asymmetric, is_smaller_transitive,
  is_nearer_asymmetric, is_nearer_transitive, all-keep_if, all_and, all_mono, max_area-all,
  max_area-attained, keep_if_none, all-kept, all-kept_by,
}

-- Whether a format of these sizes and this rate is in a list.
abbrev pub is_same : Format → Format → Bool
is_same f g = f.size.width == g.size.width && (f.size.height == g.size.height && f.fps == g.fps)

abbrev pub is_offered : Format → List Format → Bool
is_offered f fs = any (is_same f) fs

-- Whether f serves at least as well as g. A format that fits the ceiling is better than one that does
-- not, of those that fit the larger, then the nearer in rate; of the others the smaller.
unfoldable pub no_worse : Size → ℕ → Format → Format → Bool
no_worse ceiling fps f g =
    if fits ceiling f
    then not (fits ceiling g)
      || (ltb (area g) (area f) || (area g == area f && not (is_nearer fps g f)))
    else (not (fits ceiling g) && leb (area f) (area g))

is_same_self : (f : Format) → is_same f f ≡ true
is_same_self f = ground arith

all_offered : (fs : List Format) → all (λ g. is_offered g fs) fs ≡ true
all_offered [] = refl
all_offered (f ∷ fs) =
    let later =
      all_mono (λ g. is_offered g fs) (λ g. is_offered g (f ∷ fs)) fs (λ g k. ground arith)
        (all_offered fs) in
    ground (arith, is_same_self f)

abbrev pub Chosen : Size → ℕ → List Format → Format → Type 0
Chosen ceiling fps offered f =
    (is_offered f offered ≡ true) × (all (no_worse ceiling fps f) offered ≡ true)

module _ (ceiling : Size) (fps : ℕ) where
  smallest-Chosen :
      (o : Format) (rest : List Format)
      → all (λ g. not (fits ceiling g)) (o ∷ rest) ≡ true
      → Chosen ceiling fps (o ∷ rest) (least is_smaller o rest)
  unfolding no_worse is_smaller
  smallest-Chosen o rest none_fits =
      let offered : List Format = o ∷ rest in
      let f : Format = least is_smaller o rest in
      let above : not (fits ceiling f) ≡ true =
        least-holds is_smaller (λ g. not (fits ceiling g)) o rest none_fits in
      let smallest = least-lem is_smaller is_smaller_asymmetric is_smaller_transitive o rest in
      (
        least-holds is_smaller (λ g. is_offered g offered) o rest (all_offered offered),
        all_mono (λ g. not (fits ceiling g) && not (is_smaller g f)) (no_worse ceiling fps f)
            offered (λ g k. ground arith)
            (all_and (λ g. not (fits ceiling g)) (λ g. not (is_smaller g f)) offered none_fits
              smallest),
      )

  nearest-Chosen :
      (offered : List Format) (best : ℕ) (s : Format) (ss : List Format)
      → all (λ g. leb (area g) best) (keep_if (fits ceiling) offered) ≡ true
      → keep_if (λ g. area g == best) (keep_if (fits ceiling) offered) ≡ s ∷ ss
      → Chosen ceiling fps offered (least (is_nearer fps) s ss)
  unfolding no_worse
  nearest-Chosen offered best s ss largest e =
      let pool : List Format = keep_if (fits ceiling) offered in
      let kept : Format → Bool = λ g. area g == best in
      let f : Format = least (is_nearer fps) s ss in
      let below : fits ceiling f ≡ true = least-holds (is_nearer fps) (fits ceiling) s ss (
        subst (λ xs. all (fits ceiling) xs ≡ true) e
          (all-kept kept (fits ceiling) pool (all-kept_by (fits ceiling) offered))) in
      let wide : (area f == best) ≡ true =
        least-holds (is_nearer fps) kept s ss
          (subst (λ xs. all kept xs ≡ true) e (all-kept_by kept pool)) in
      let listed : is_offered f offered ≡ true =
        least-holds (is_nearer fps) (λ g. is_offered g offered) s ss
          (subst (λ xs. all (λ g. is_offered g offered) xs ≡ true) e
            (all-kept kept (λ g. is_offered g offered) pool
              (all-kept (fits ceiling) (λ g. is_offered g offered) offered
                (all_offered offered)))) in
      let nearest : all (λ g. not (kept g) || not (is_nearer fps g f)) pool ≡ true =
        sym (all-keep_if kept (λ g. not (is_nearer fps g f)) pool)
        ∙ subst (λ xs. all (λ g. not (is_nearer fps g f)) xs ≡ true) (sym e)
            (least-lem (is_nearer fps) (is_nearer_asymmetric fps) (is_nearer_transitive fps) s
              ss) in
      let over_pool =
        all_and (λ g. leb (area g) best) (λ g. not (kept g) || not (is_nearer fps g f)) pool largest
          nearest in
      let over_offered =
        sym (
          all-keep_if (fits ceiling)
            (λ g. leb (area g) best && (not (kept g) || not (is_nearer fps g f))) offered)
        ∙ over_pool in
      (
        listed,
        all_mono
            (λ g.
              not (fits ceiling g)
              || (leb (area g) best && (not (kept g) || not (is_nearer fps g f))))
            (no_worse ceiling fps f) offered (λ g k. ground arith) over_offered,
      )

nonempty :
    (p : Format) (ps : List Format)
    → keep_if (λ g. area g == max_area (area p) ps) (p ∷ ps) ≡ []
    → true ≡ false
nonempty p ps h =
    let best : ℕ = max_area (area p) ps in
    let none_largest = keep_if_none (λ g. area g == best) (p ∷ ps) h in
    let attained = max_area-attained best (area p) ps refl in ground arith

module _ (ceiling : Size) (fps : ℕ) (o : Format) (rest : List Format) where
  Answer : Option Format → Type 0
  Answer result = (f : Format) × ((result ≡ some f) × Chosen ceiling fps (o ∷ rest) f)

  min_by-Answer :
      (p : Format) (ps xs : List Format)
      → keep_if (fits ceiling) (o ∷ rest) ≡ p ∷ ps
      → keep_if (λ g. area g == max_area (area p) ps) (p ∷ ps) ≡ xs
      → Answer (min_by (is_nearer fps) xs)
  unfolding Answer min_by
  min_by-Answer p ps [] e h = let absurd = nonempty p ps h in cc
  min_by-Answer p ps (s ∷ ss) e h =
      let best : ℕ = max_area (area p) ps in
      let largest : all (λ g. leb (area g) best) (p ∷ ps) ≡ true =
        ground (arith, max_area-first (area p) ps, max_area-all best (area p) ps refl) in
      (
        least (is_nearer fps) s ss,
        (
          refl,
          nearest-Chosen ceiling fps (o ∷ rest) best s ss
              (subst (λ pool. all (λ g. leb (area g) best) pool ≡ true) (sym e) largest)
              (subst (λ pool. keep_if (λ g. area g == best) pool ≡ s ∷ ss) (sym e) h),
        ),
      )

  choose_in-Answer :
      (pool : List Format)
      → keep_if (fits ceiling) (o ∷ rest) ≡ pool
      → Answer (choose_in (o ∷ rest) fps pool)
  unfolding Answer choose_in min_by
  choose_in-Answer [] e = (
    least is_smaller o rest,
    (refl, smallest-Chosen ceiling fps o rest (keep_if_none (fits ceiling) (o ∷ rest) e)),
  )
  choose_in-Answer (p ∷ ps) e =
      min_by-Answer p ps (keep_if (λ g. area g == max_area (area p) ps) (p ∷ ps)) e refl

-- Of a camera that offers any format, one of those offered is chosen, and none of them would serve
-- better: it fits the ceiling where any does, is the largest that fits, and of these the nearest in rate,
-- a rate below the one asked for being worse than any other; where none fits it is the smallest.
pub choose_format-Chosen :
    (o : Format) (rest : List Format) (ceiling : Size) (fps : ℕ)
    → (f : Format) × ((choose_format (o ∷ rest) ceiling fps ≡ some f)
        × Chosen ceiling fps (o ∷ rest) f)
unfolding choose_format Answer
choose_format-Chosen o rest ceiling fps =
    choose_in-Answer ceiling fps o rest (keep_if (fits ceiling) (o ∷ rest)) refl
