-- ===== src/Handlers/Order.antt =====
-- The handlers are called in the order in which they were added, up to the length of the queue.
use native.Mathlib.Nat.{mod-eq_of_lt}
use fdu_os.Common.{
  ℕ, zero, suc, ◌+◌, ◌^◌, ◌≤◌, ◌≡◌, refl, sym, ap, ◌∙◌, Bool, true, false, List, [], ◌∷◌, ◌++◌, map,
  length, take, All, length-append, ltb, leb, ◌==◌, if◌then◌else◌, Bool-cases, inl, inr, arith,
}
use fdu_os.Common.Words.{add32}
use fdu_os.Common.Outcome.{Outcome, done, ◌>>=◌}
use fdu_os.Handlers.{
  handler_queue_length, mmu_handlers_clear, mmu_handlers_add, mmu_handlers_apply,
  jump_handlers_clear, jump_handlers_add, jump_handlers_apply, postmap_addr,
}

-- One call of `add` after another, whatever they return.
abbrev pub add_all : (ℕ → List ℕ → Outcome (Bool × List ℕ)) → List ℕ → List ℕ → Outcome (List ℕ)
add_all add [] queue = done queue
add_all add (h ∷ hs) queue = add h queue >>= λ (_, longer). add_all add hs longer

-- Appending what there is room for.
add_room :
    (h : ℕ) (hs queue : List ℕ) (n : ℕ)
    → (queue ++ (h ∷ [])) ++ take n hs ≡ queue ++ take (suc n) (h ∷ hs)
add_room h hs [] n = refl
add_room h hs (q ∷ qs) n = ap (λ x. q ∷ x) (add_room h hs qs n)

append-nil : (xs : List ℕ) → xs ++ [] ≡ xs
append-nil [] = refl
append-nil (x ∷ xs) = ap (λ y. x ∷ y) (append-nil xs)

add_all-take :
    (n : ℕ) (hs queue : List ℕ)
    → length queue + n ≡ handler_queue_length
    → add_all mmu_handlers_add hs queue ≡ done (queue ++ take n hs)
unfolding mmu_handlers_add
add_all-take zero [] queue e = ap done (sym (append-nil queue))
add_all-take (suc n) [] queue e = ap done (sym (append-nil queue))
add_all-take zero (h ∷ hs) queue e =
    let bounded : ltb handler_queue_length (length queue) ≡ false = ground arith in
    let is_full : (length queue == handler_queue_length) ≡ true = ground arith in
    rw (bounded, is_full) (add_all-take zero hs queue e)
add_all-take (suc n) (h ∷ hs) queue e =
    let bounded : ltb handler_queue_length (length queue) ≡ false = ground arith in
    let room : (length queue == handler_queue_length) ≡ false = ground arith in
    rw (bounded, room)
      (add_all-take n hs (queue ++ (h ∷ [])) (omega (arith, length-append queue (h ∷ [])))
        ∙ ap done (add_room h hs queue n))

jump_as_mmu : (h : ℕ) (queue : List ℕ) → jump_handlers_add h queue ≡ mmu_handlers_add h queue
unfolding jump_handlers_add mmu_handlers_add
jump_as_mmu h queue = refl

-- After the queue was cleared and any number of handlers added, without a panic,
-- `mmu_handlers_apply` calls the first ten of them, in the order in which they were added.
pub mmu_handlers_lem :
    (old hs : List ℕ)
    → (queue : List ℕ) × (add_all mmu_handlers_add hs (mmu_handlers_clear old) ≡ done queue)
      × (mmu_handlers_apply queue ≡ take 10 hs)
unfolding mmu_handlers_clear mmu_handlers_apply
mmu_handlers_lem old hs = (take 10 hs, add_all-take 10 hs [] refl, refl)

All-high :
    (kern_base : ℕ) (hs : List ℕ) (n : ℕ)
    → kern_base ≤ 2 ^ 31
    → All (λ h. kern_base ≤ h) (map (postmap_addr kern_base) (take n hs))
unfolding postmap_addr
All-high k [] zero p = tt
All-high k (x ∷ xs) zero p = tt
All-high k [] (suc n) p = tt
All-high k (x ∷ xs) (suc n) p = (up, All-high k xs n p)
  where
    up : k ≤ (if leb k x then x else add32 x k)
    up = elim (Bool-cases (leb k x)) [
      | inl high ↦ rw high (ground arith)
      | inr low ↦
          let e : add32 x k ≡ x + k = mod-eq_of_lt (ground arith) in rw (low, e) (omega arith)
    ]

-- After the queue was cleared and any number of handlers added, without a panic,
-- `jump_handlers_apply` calls the first ten of them, in the order in which they were added, each at
-- its address after the jump. If `KERN_BASE` is at most 2^31, all of these are high addresses.
pub jump_handlers_lem :
    (kern_base : ℕ) (old hs : List ℕ)
    → kern_base ≤ 2 ^ 31
    → (queue : List ℕ) × (add_all jump_handlers_add hs (jump_handlers_clear old) ≡ done queue)
      × (jump_handlers_apply kern_base queue ≡ map (postmap_addr kern_base) (take 10 hs))
      × All (λ h. kern_base ≤ h) (jump_handlers_apply kern_base queue)
unfolding jump_handlers_clear jump_handlers_apply
jump_handlers_lem kern_base old hs p = (
  take 10 hs,
  ap (λ f. add_all f hs []) (λ i a q. jump_as_mmu a q i) ∙ add_all-take 10 hs [] refl,
  refl,
  All-high kern_base hs 10 p,
)
