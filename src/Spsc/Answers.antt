-- ===== src/Spsc/Answers.antt =====
-- What a call of spscqueue.h leaves, by its answer.
use marketdatabook.Common.{ℕ, ◌-◌, ◌<◌, ◌≡◌, List, [], ◌∷◌, ◌++◌, length, none, some, true, false}
use marketdatabook.Common.{ltb, Bool-cases, inl, inr}
use marketdatabook.Spsc.{Queue, push, pop}
use marketdatabook.Spsc.Holds.{Holds, size}
use marketdatabook.Spsc.Calls.{push-Agrees, pop-Agrees}

module _ {A : Type 0} {k : ℕ} (fits : k < 64) (q : Queue A) where
  pub push-true :
      (ws : List A) (x : A)
      → Holds k q ws
      → (push k q x).1 ≡ true
      → Holds k (push k q x).0 (ws ++ x ∷ [])
  push-true ws x h e = elim (Bool-cases (ltb (length ws) (size k - 1))) [
    | inl room ↦ rw (room) at ((push-Agrees fits x h).0)
    | inr full ↦ let r = rw (full) at ((push-Agrees fits x h).1) in absurd (cc (r, e))
  ]

  pub push-false :
      (ws : List A) (x : A) → Holds k q ws → (push k q x).1 ≡ false → Holds k (push k q x).0 ws
  push-false ws x h e = elim (Bool-cases (ltb (length ws) (size k - 1))) [
    | inl room ↦ let r = rw (room) at ((push-Agrees fits x h).1) in absurd (cc (r, e))
    | inr full ↦ rw (full) at ((push-Agrees fits x h).0)
  ]

  -- An element that is popped is the oldest.
  pub pop-some :
      (ws : List A) (x : A)
      → Holds k q ws
      → (pop k q).1 ≡ some x
      → (rest : List A) × (ws ≡ x ∷ rest) × Holds k (pop k q).0 rest
  pop-some [] x h e = let (_, r) = pop-Agrees fits h in absurd (cc (r, e))
  pop-some (w ∷ ws) x h e = let (held, r) = pop-Agrees fits h in (ws, cc (r, e), held)

  pub pop-none : (ws : List A) → Holds k q ws → (pop k q).1 ≡ none → Holds k (pop k q).0 ws
  pop-none [] h e = (pop-Agrees fits h).0
  pop-none (w ∷ ws) h e = let (_, r) = pop-Agrees fits h in absurd (cc (r, e))
