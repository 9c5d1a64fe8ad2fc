-- ===== src/Slub/Calls.antt =====
-- How the calls of slub.c end, in terms of what the client owns.
use fdu_os.Common.{ℕ, ◌<◌, ◌≤◌, ◌≡◌, ◌≢◌, sym, ◌∙◌}
use fdu_os.Common.Outcome.{Outcome, done}
use fdu_os.Slub.{Slub}
use fdu_os.Slub.State.{Ghost, IsSound, owned}

module _ {State : Type 0} (Holds : State → (ℕ → ℕ) → Type 0) where
  -- How a `malloc` ends: with NULL, or with at least `size` bytes at a pointer where the client
  -- owned nothing; what it owns elsewhere stays the same.
  pub data Mallocs (s : Slub State) (g : Ghost) (size : ℕ) : Outcome (ℕ × Slub State) → Type 0 where
    refused :
        {s' : Slub State} (g' : Ghost)
        → IsSound Holds s' g'
        → ((q : ℕ) → owned s' g' q ≡ owned s g q)
        → Mallocs s g size (done (0, s'))
    granted :
        {p : ℕ} {s' : Slub State} (g' : Ghost)
        → IsSound Holds s' g'
        → owned s g p ≡ 0
        → 0 < owned s' g' p
        → size ≤ owned s' g' p
        → ((q : ℕ) → q ≢ p → owned s' g' q ≡ owned s g q)
        → Mallocs s g size (done (p, s'))

  -- A call in a state that owns the same.
  pub Mallocs-same :
      {s t : Slub State} {g k : Ghost} {size : ℕ} {r : Outcome (ℕ × Slub State)}
      → ((q : ℕ) → owned t k q ≡ owned s g q)
      → Mallocs t k size r
      → Mallocs s g size r
  Mallocs-same same (refused g' sound kept) = refused g' sound (λ q. kept q ∙ same q)
  Mallocs-same same (granted {p} g' sound before positive enough kept) =
      granted g' sound (sym (same p) ∙ before) positive enough (λ q. λ ne. kept q ne ∙ same q)

  -- How a `free` ends: the client owns nothing at the pointer any more.
  pub data Frees (s : Slub State) (g : Ghost) (p : ℕ) : Outcome (Slub State) → Type 0 where
    freed :
        {s' : Slub State} (g' : Ghost)
        → IsSound Holds s' g'
        → owned s' g' p ≡ 0
        → ((q : ℕ) → q ≢ p → owned s' g' q ≡ owned s g q)
        → Frees s g p (done s')
