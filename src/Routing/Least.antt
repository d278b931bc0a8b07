-- ===== src/Routing/Least.antt =====
-- `pickLeastLoadedRunner` finds a least loaded runner.
use servermore.Base.{
  Bool, String, [], arith, false, if◌then◌else◌, inl, inr, leb, ltb, not, refl, sym, true, ℕ, ◌&&◌,
  ◌<◌, ◌∷◌, ◌≡◌, ◌≤◌, ◌⊎◌,
}
use servermore.Base.Maps.{Has, Map}
use servermore.Routing.{least_loaded_from, max_int, pick_least_loaded_runner}

-- The loop's invariant: what was there before it, or an entry below the threshold and the minimum.
abbrev Best : ℕ → String → ℕ → Map ℕ → String → Type 0
Best threshold start min runners result =
    ((result ≡ start) × ((r : String) (q : ℕ) → Has r q runners → (threshold ≤ q) ⊎ (min ≤ q)))
    ⊎ ((q : ℕ) × Has result q runners
        × (q < threshold)
        × (q < min)
        × ((r' : String) (q' : ℕ) → Has r' q' runners → (threshold ≤ q') ⊎ (q ≤ q')))

abbrev takes : ℕ → ℕ → ℕ → Bool
takes threshold requests min = not (leb threshold requests) && ltb requests min

Best-take :
    (t : ℕ) (start : String) (min : ℕ) (a : String) (n : ℕ) (rest : Map ℕ) {result : String}
    → takes t n min ≡ true
    → Best t a n rest result
    → Best t start min ((a, n) ∷ rest) result
Best-take t start min a n rest e (inl (same, all)) = inr (
  n,
  inl (sym same, refl),
  ground arith,
  ground arith,
  λ r' q' h. elim h [ inl (_, q) ↦ inr (omega arith) | inr later ↦ all r' q' later ],
)
Best-take t start min a n rest e (inr (q, here, low, less, all)) = inr (
  q,
  inr here,
  low,
  ground arith,
  λ r' q' h. elim h [ inl (_, q) ↦ inr (omega arith) | inr later ↦ all r' q' later ],
)

Best-skip :
    (t : ℕ) (start : String) (min : ℕ) (a : String) (n : ℕ) (rest : Map ℕ) {result : String}
    → takes t n min ≡ false
    → Best t start min rest result
    → Best t start min ((a, n) ∷ rest) result
Best-skip t start min a n rest e (inl (same, all)) =
    inl (same, λ r q h. elim h [ inl (_, p) ↦ ground arith | inr later ↦ all r q later ])
Best-skip t start min a n rest e (inr (q, here, low, less, all)) = inr (
  q,
  inr here,
  low,
  less,
  λ r' q' h. elim h [ inl (_, p) ↦ ground arith | inr later ↦ all r' q' later ],
)

Best-step :
    (t : ℕ) (start : String) (min : ℕ) (a : String) (n : ℕ) (rest : Map ℕ) (taken : Bool)
    {result : String}
    → takes t n min ≡ taken
    → Best t (if taken then a else start) (if taken then n else min) rest result
    → Best t start min ((a, n) ∷ rest) result
Best-step t start min a n rest true e best = Best-take t start min a n rest e best
Best-step t start min a n rest false e best = Best-skip t start min a n rest e best

least_loaded_from-Best :
    (threshold : ℕ) (start : String) (min : ℕ) (runners : Map ℕ)
    → Best threshold start min runners (least_loaded_from threshold start min runners)
unfolding least_loaded_from
least_loaded_from-Best t start min [] = inl (refl, λ r q h. absurd h)
least_loaded_from-Best t start min ((a, n) ∷ rest) =
    let taken = takes t n min in
    Best-step t start min a n rest taken refl
      (least_loaded_from-Best t (if taken then a else start) (if taken then n else min) rest)

-- Every runner is at or above the threshold, or counts as many requests as an int can hold.
abbrev pub AllLoaded : ℕ → Map ℕ → Type 0
AllLoaded threshold runners =
    (r : String) (q : ℕ) → Has r q runners → (threshold ≤ q) ⊎ (max_int ≤ q)

-- A runner below the threshold, and no runner below the threshold has fewer requests.
abbrev pub IsLeastLoaded : ℕ → Map ℕ → String → Type 0
IsLeastLoaded threshold runners addr =
    (q : ℕ) × Has addr q runners
    × (q < threshold)
    × ((r' : String) (q' : ℕ) → Has r' q' runners → (threshold ≤ q') ⊎ (q ≤ q'))

-- Whatever the order of the loop, `pickLeastLoadedRunner` either returns the empty text, and then
-- every runner is loaded, or returns a runner below the threshold that no other such runner beats.
pub pick_least_loaded_runner_correct :
    (runners : Map ℕ) (threshold : ℕ)
    → ((pick_least_loaded_runner runners threshold ≡ "") × AllLoaded threshold runners)
      ⊎ IsLeastLoaded threshold runners (pick_least_loaded_runner runners threshold)
unfolding pick_least_loaded_runner
pick_least_loaded_runner_correct runners threshold =
    elim (least_loaded_from-Best threshold "" max_int runners) [
      | inl (e, all) ↦ inl (e, all)
      | inr (q, here, low, less, all) ↦ inr (q, here, low, all)
    ]
