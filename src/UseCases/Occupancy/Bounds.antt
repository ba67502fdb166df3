-- ===== src/UseCases/Occupancy/Bounds.antt =====
-- What the spreading of a party over tables comes to.
use native.Mathlib.Nat.{div-add-mod', mod-lt}
use spotq_queue_service.Base.{
  ℕ, zero, suc, ◌≡◌, refl, ap, ◌+◌, ◌-◌, ◌*◌, ◌/◌, ◌%◌, ◌≤◌, ◌<◌, min, max, String, List, [], ◌∷◌,
  map, length, ltb, sum_by, All, arith, if◌then◌else◌,
}
use spotq_queue_service.UseCases.Occupancy.{spread, assignment_payload}

spread-ids : (b r : ℕ) (ts : List String) → map (λ a. a.0) (spread b r ts) ≡ ts
unfolding spread
spread-ids b r [] = refl
spread-ids b r (t ∷ ts) = ap (λ us. t ∷ us) (spread-ids b (if ltb 0 r then r - 1 else r) ts)

spread-sum :
    (b r : ℕ) (ts : List String)
    → 1 ≤ b
    → sum_by (λ a. a.1) (spread b r ts) ≡ b * length ts + min r (length ts)
unfolding spread
spread-sum b r [] h = ground arith
spread-sum b r (t ∷ ts) h = ground (arith, spread-sum b (if ltb 0 r then r - 1 else r) ts h)

spread-ones : (r : ℕ) (ts : List String) → sum_by (λ a. a.1) (spread 0 r ts) ≡ length ts
unfolding spread
spread-ones r [] = refl
spread-ones r (t ∷ ts) = ground (arith, spread-ones (if ltb 0 r then r - 1 else r) ts)

spread-fair :
    (b : ℕ) (r : ℕ) (ts : List String)
    → All (λ a. (1 ≤ a.1) × (b ≤ a.1) × (a.1 ≤ b + 1)) (spread b r ts)
unfolding spread
spread-fair b r [] = tt
spread-fair b r (t ∷ ts) =
    ((ground arith, ground arith, ground arith), spread-fair b (if ltb 0 r then r - 1 else r) ts)

spread-total :
    (b r p : ℕ) (ts : List String)
    → b * length ts + r ≡ p
    → r < length ts
    → sum_by (λ a. a.1) (spread b r ts) ≡ max p (length ts)
spread-total zero r p ts e h = ground (arith, spread-ones r ts)
spread-total (suc b) r p ts e h = rw (spread-sum (suc b) r ts (omega arith)) (grind arith)

-- Over at least one table, everyone of a party is seated: the seats taken are as many as the party
-- or, where there are more tables than people, as many as the tables.
pub assignment_payload-total :
    (party_size : ℕ) (t : String) (ts : List String)
    → sum_by (λ a. a.1) (assignment_payload party_size (t ∷ ts)) ≡ max party_size (length (t ∷ ts))
unfolding assignment_payload
assignment_payload-total p t ts =
    spread-total (p / length (t ∷ ts)) (p % length (t ∷ ts)) p (t ∷ ts)
      (div-add-mod' p (length (t ∷ ts))) (mod-lt p (omega arith))

-- The tables of a request are kept, in their order; each takes at least one of the party, and the
-- numbers of any two differ by at most one.
pub assignment_payload-fair :
    (party_size : ℕ) (ts : List String)
    → (map (λ a. a.0) (assignment_payload party_size ts) ≡ ts)
      × All
          (λ a. (1 ≤ a.1) × (party_size / length ts ≤ a.1) × (a.1 ≤ party_size / length ts + 1))
          (assignment_payload party_size ts)
unfolding assignment_payload
assignment_payload-fair p ts =
    (spread-ids (p / length ts) (p % length ts) ts, spread-fair (p / length ts) (p % length ts) ts)
