-- ===== src/Device/Push/Codes.antt =====
-- The change detection of the health codes: their order does not count.
use livox_mid360_core.Prelude.{
  ℕ, ◌+◌, ◌≤◌, ◌<◌, ◌≡◌, ◌↔◌, ◌==◌, ◌∙◌, refl, sym, ap, ap₂, leb, Bool, Bool-cases, true, false,
  inl, inr, if◌then◌else◌, List, [], ◌∷◌, some, arith,
}
use livox_mid360_core.Hms.{HmsCode}
use livox_mid360_core.Transport.{same_bytes, same_bytes_refl, same_bytes_eq}
use livox_mid360_core.Event.{Event, hms_changed}
use livox_mid360_core.Device.Push.{
  worst_level, insert_sorted, sort, raw_codes, hms_events, hms_after,
}

abbrev pub count : ℕ → List ℕ → ℕ
count a [] = 0
count a (x ∷ xs) = (if x == a then 1 else 0) + count a xs

-- The same codes, each as often.
abbrev pub SameItems : List ℕ → List ℕ → Type 0
SameItems xs ys = (a : ℕ) → count a xs ≡ count a ys

count-insert_sorted : (a x : ℕ) (ys : List ℕ) → count a (insert_sorted x ys) ≡ count a (x ∷ ys)
unfolding insert_sorted
count-insert_sorted a x [] = refl
count-insert_sorted a x (y ∷ ys) = ground (arith, count-insert_sorted a x ys)

count-sort : (a : ℕ) (xs : List ℕ) → count a (sort xs) ≡ count a xs
unfolding sort
count-sort a [] = refl
count-sort a (x ∷ xs) = omega (arith, count-insert_sorted a x (sort xs), count-sort a xs)

-- No item is smaller than `n`.
abbrev Above : ℕ → List ℕ → Type 0
Above n [] = Unit {0}
Above n (x ∷ xs) = (n ≤ x) × Above n xs

abbrev IsSorted : List ℕ → Type 0
IsSorted [] = Unit {0}
IsSorted (x ∷ xs) = Above x xs × IsSorted xs

Above-trans : (m n : ℕ) (xs : List ℕ) → m ≤ n → Above n xs → Above m xs
Above-trans m n [] h v = tt
Above-trans m n (x ∷ xs) h v = (omega (arith, h, v.0), Above-trans m n xs h v.1)

insert_sorted-Above : (n x : ℕ) (ys : List ℕ) → n ≤ x → Above n ys → Above n (insert_sorted x ys)
unfolding insert_sorted
insert_sorted-Above n x [] h v = (h, tt)
insert_sorted-Above n x (y ∷ ys) h v = elim (Bool-cases (leb x y)) [
  | inl le ↦ rw le (h, v)
  | inr gt ↦ rw gt (v.0, insert_sorted-Above n x ys h v.1)
]

insert_sorted-IsSorted : (x : ℕ) (ys : List ℕ) → IsSorted ys → IsSorted (insert_sorted x ys)
unfolding insert_sorted
insert_sorted-IsSorted x [] v = (tt, tt)
insert_sorted-IsSorted x (y ∷ ys) v = elim (Bool-cases (leb x y)) [
  | inl le ↦ let h : x ≤ y = ground (arith, le) in rw le ((h, Above-trans x y ys h v.0), v)
  | inr gt ↦
      rw gt (insert_sorted-Above y x ys (ground (arith, gt)) v.0, insert_sorted-IsSorted x ys v.1)
]

sort-IsSorted : (xs : List ℕ) → IsSorted (sort xs)
unfolding sort
sort-IsSorted [] = tt
sort-IsSorted (x ∷ xs) = insert_sorted-IsSorted x (sort xs) (sort-IsSorted xs)

-- What occurs above `n` is not smaller.
Above-count : (n a : ℕ) (xs : List ℕ) → Above n xs → 0 < count a xs → n ≤ a
Above-count n a [] v h = absurd (omega (arith, h))
Above-count n a (x ∷ xs) v h = ground (arith, Above-count n a xs v.1, v.0)

heads : (x y : ℕ) (xs ys : List ℕ) → IsSorted (y ∷ ys) → SameItems (x ∷ xs) (y ∷ ys) → y ≤ x
heads x y xs ys v h = ground (arith, h x, Above-count y x ys v.0)

-- Two sorted lists of the same items are one list.
sorted_unique : (xs ys : List ℕ) → IsSorted xs → IsSorted ys → SameItems xs ys → xs ≡ ys
sorted_unique [] [] v w h = refl
sorted_unique [] (y ∷ ys) v w h = absurd (ground (arith, h y))
sorted_unique (x ∷ xs) [] v w h = absurd (ground (arith, h x))
sorted_unique (x ∷ xs) (y ∷ ys) v w h =
    let e : x ≡ y = omega (arith, heads x y xs ys w h, heads y x ys xs v (λ a. sym (h a))) in
    ap₂ (λ (z : ℕ) zs. z ∷ zs) e (sorted_unique xs ys v.1 w.1 (λ a. ground (arith, h a, e)))

-- What a comparison of sorted lists says of the items.
same_sorted :
    (xs ys : List ℕ) (events : List Event) (e : Event)
    → ((if same_bytes (sort xs) (sort ys) then [] else e ∷ events) ≡ []) ↔ SameItems xs ys
same_sorted xs ys events e = (told (same_bytes (sort xs) (sort ys)) refl, silent)
  where
    told :
        (b : Bool)
        → same_bytes (sort xs) (sort ys) ≡ b
        → (if b then [] else e ∷ events) ≡ []
        → SameItems xs ys
    told true same h a =
        sym (count-sort a xs)
        ∙ ap (count a) (same_bytes_eq (sort xs) (sort ys) same)
        ∙ count-sort a ys
    told false differ h a = absurd (cc h)

    silent : SameItems xs ys → (if same_bytes (sort xs) (sort ys) then [] else e ∷ events) ≡ []
    silent h =
        rw
          (
            sorted_unique (sort xs) (sort ys) (sort-IsSorted xs) (sort-IsSorted ys)
                (λ a. count-sort a xs ∙ h a ∙ sym (count-sort a ys)),
            same_bytes_refl (sort ys),
          )
          refl

-- Health codes that are known, and are told again, raise no event exactly when they are the same codes,
-- each as often, in whatever order their slots stand.
pub hms_events-SameItems :
    (time : ℕ) (codes known : List HmsCode) (before : List ℕ)
    → (hms_events time (some codes) (hms_after (some known) before) ≡ [])
      ↔ SameItems (raw_codes codes) (raw_codes known)
unfolding hms_events
hms_events-SameItems time codes known before =
    same_sorted (raw_codes codes) (raw_codes known) []
      (hms_changed (worst_level 0 codes) codes time)
