-- ===== src/Space/Cases.antt =====
-- Splits on the results of a comparator and of a search (src/tuple_utils.h, src/tsd/tsd.c).
use synergy_wrapper.Base.{ℕ, ◌≡◌, ◌⊎◌, inl, inr, refl}
use synergy_wrapper.Space.Compare.{Order, same, below, above, crash}
use synergy_wrapper.Space.Zlistx.{Search, missing, crashed, found}

pub Order-cases : (o : Order) → ((o ≡ below) ⊎ (o ≡ above)) ⊎ ((o ≡ crash) ⊎ (o ≡ same))
Order-cases same = inr (inr refl)
Order-cases below = inl (inl refl)
Order-cases above = inl (inr refl)
Order-cases crash = inr (inl refl)

pub Search-cases : (s : Search) → (s ≡ missing) ⊎ ((s ≡ crashed) ⊎ ((i : ℕ) × (s ≡ found i)))
Search-cases missing = inl refl
Search-cases crashed = inr (inl refl)
Search-cases (found i) = inr (inr (i, refl))
