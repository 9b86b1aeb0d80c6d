-- ===== src/Desktop/Camera/Search.antt =====
-- The searches of `choose_format` of desktop/src-tauri/src/camera/mod.rs: the least format by an order,
-- the largest area, and the formats that are kept.
use ldktela.Base.{
  ℕ, ◌≤◌, Bool, true, false, not, ◌&&◌, ◌||◌, List, [], ◌∷◌, leb, ltb, ◌==◌, keep_if, all, ◌≡◌,
  refl, ap, ◌∙◌, Bool-cases, inl, inr, arith,
}
use ldktela.Desktop.Camera.{Format, area, least, is_smaller, is_nearer, max_area}

module _ (less : Format → Format → Bool)
    (asymmetric : (a b : Format) → less a b ≡ true → less b a ≡ false)
    (transitive : (a b c : Format) → less b a ≡ false → less c b ≡ false → less c a ≡ false) where
  least-first : (b : Format) (fs : List Format) → less b (least less b fs) ≡ false
  unfolding least
  least-first b [] = elim (Bool-cases (less b b)) [ inl e ↦ asymmetric b b e | inr e ↦ e ]
  least-first b (f ∷ fs) = elim (Bool-cases (less f b)) [
    | inl e ↦ rw e (transitive (least less f fs) f b (least-first f fs) (asymmetric f b e))
    | inr e ↦ rw e (least-first b fs)
  ]

  least-all :
      (m b : Format) (fs : List Format) → m ≡ least less b fs → all (λ g. not (less g m)) fs ≡ true
  unfolding least
  least-all m b [] h = refl
  least-all m b (f ∷ fs) h = elim (Bool-cases (less f b)) [
    | inl e ↦
        let h' : m ≡ least less f fs = rw e at h in
        let here : less f m ≡ false = rw h' (least-first f fs) in rw here (least-all m f fs h')
    | inr e ↦
        let h' : m ≡ least less b fs = rw e at h in
        let here : less f m ≡ false =
          rw h' (transitive (least less b fs) b f (least-first b fs) e) in
        rw here (least-all m b fs h')
  ]

  pub least-lem :
      (b : Format) (fs : List Format) → all (λ g. not (less g (least less b fs))) (b ∷ fs) ≡ true
  least-lem b fs = rw (least-first b fs) (least-all (least less b fs) b fs refl)

pub least-holds :
    (less : Format → Format → Bool) (p : Format → Bool) (b : Format) (fs : List Format)
    → all p (b ∷ fs) ≡ true
    → p (least less b fs) ≡ true
unfolding least
least-holds less p b [] h = ground arith
least-holds less p b (f ∷ fs) h = elim (Bool-cases (less f b)) [
  | inl e ↦ rw e (least-holds less p f fs (ground arith))
  | inr e ↦ rw e (least-holds less p b fs (ground arith))
]

pub is_smaller_asymmetric : (a b : Format) → is_smaller a b ≡ true → is_smaller b a ≡ false
unfolding is_smaller
is_smaller_asymmetric a b h = ground arith

pub is_smaller_transitive :
    (a b c : Format) → is_smaller b a ≡ false → is_smaller c b ≡ false → is_smaller c a ≡ false
unfolding is_smaller
is_smaller_transitive a b c h k = ground arith

module _ (fps : ℕ) where
  pub is_nearer_asymmetric : (a b : Format) → is_nearer fps a b ≡ true → is_nearer fps b a ≡ false
  unfolding is_nearer
  is_nearer_asymmetric a b h = ground arith

  pub is_nearer_transitive :
      (a b c : Format)
      → is_nearer fps b a ≡ false
      → is_nearer fps c b ≡ false
      → is_nearer fps c a ≡ false
  unfolding is_nearer
  is_nearer_transitive a b c h k = ground arith

pub all-keep_if :
    (p q : Format → Bool) (fs : List Format) → all q (keep_if p fs) ≡ all (λ g. not (p g) || q g) fs
all-keep_if p q [] = refl
all-keep_if p q (f ∷ fs) = elim (Bool-cases (p f)) [
  | inl e ↦ rw (keep_if, e) (ap (λ x. q f && x) (all-keep_if p q fs))
  | inr e ↦ rw (keep_if, e) (all-keep_if p q fs)
]

pub all_and :
    (p q : Format → Bool) (fs : List Format)
    → all p fs ≡ true
    → all q fs ≡ true
    → all (λ g. p g && q g) fs ≡ true
all_and p q [] h k = refl
all_and p q (f ∷ fs) h k = ground (arith, all_and p q fs)

pub all_mono :
    (p q : Format → Bool) (fs : List Format)
    → ((g : Format) → p g ≡ true → q g ≡ true)
    → all p fs ≡ true
    → all q fs ≡ true
all_mono p q [] m h = refl
all_mono p q (f ∷ fs) m h = ground (arith, m f, all_mono p q fs m)

pub max_area-first : (b : ℕ) (fs : List Format) → b ≤ max_area b fs
unfolding max_area
max_area-first b [] = omega arith
max_area-first b (f ∷ fs) = ground (arith, max_area-first b fs, max_area-first (area f) fs)

pub max_area-all :
    (m b : ℕ) (fs : List Format) → m ≡ max_area b fs → all (λ g. leb (area g) m) fs ≡ true
unfolding max_area
max_area-all m b [] h = refl
max_area-all m b (f ∷ fs) h = elim (Bool-cases (ltb b (area f))) [
  | inl e ↦
      let h' : m ≡ max_area (area f) fs = rw e at h in
      ground (arith, max_area-first (area f) fs, max_area-all m (area f) fs h')
  | inr e ↦
      let h' : m ≡ max_area b fs = rw e at h in
      ground (arith, max_area-first b fs, max_area-all m b fs h')
]

-- The largest area is that of the first format or of one behind it.
pub max_area-attained :
    (m b : ℕ) (fs : List Format)
    → m ≡ max_area b fs
    → (b == m) ≡ false
    → all (λ g. not (area g == m)) fs ≡ false
unfolding max_area
max_area-attained m b [] h n = ground arith
max_area-attained m b (f ∷ fs) h n = elim (Bool-cases (ltb b (area f))) [
  | inl e ↦
      let h' : m ≡ max_area (area f) fs = rw e at h in
      elim (Bool-cases (area f == m)) [
        | inl same ↦ rw same refl
        | inr other ↦ rw (other, max_area-attained m (area f) fs h' other) refl
      ]
  | inr e ↦ let h' : m ≡ max_area b fs = rw e at h in ground (arith, max_area-attained m b fs h' n)
]

pub keep_if_none :
    (p : Format → Bool) (fs : List Format) → keep_if p fs ≡ [] → all (λ g. not (p g)) fs ≡ true
keep_if_none p [] h = refl
keep_if_none p (f ∷ fs) h = elim (Bool-cases (p f)) [
  | inl e ↦ let h' : f ∷ keep_if p fs ≡ [] = rw (keep_if, e) at h in cc
  | inr e ↦ rw e (keep_if_none p fs (rw (keep_if, e) at h))
]

-- What holds of every format holds of those that are kept, and so does the test that keeps them.
pub all-kept :
    (p q : Format → Bool) (fs : List Format) → all q fs ≡ true → all q (keep_if p fs) ≡ true
all-kept p q fs h =
    all-keep_if p q fs ∙ all_mono q (λ g. not (p g) || q g) fs (λ g k. ground arith) h

all_tautology : (p : Format → Bool) (fs : List Format) → all (λ g. not (p g) || p g) fs ≡ true
all_tautology p [] = refl
all_tautology p (f ∷ fs) = ground (arith, all_tautology p fs)

pub all-kept_by : (p : Format → Bool) (fs : List Format) → all p (keep_if p fs) ≡ true
all-kept_by p fs = all-keep_if p p fs ∙ all_tautology p fs
