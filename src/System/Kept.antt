-- ===== src/System/Kept.antt =====
-- What the queue between ItchParser.h and the consumer holds, also where it is full: a push into a
-- full queue loses its order.
use mathlib.Core.List.{Sublistᴰ}
use mathlib.Core.List.Sublistᴰ.{slnil, cons, cons-cons}
use marketdatabook.Common.{ℕ, ◌-◌, ◌≤◌, ◌<◌, ◌≡◌, refl, ap₂, arith}
use marketdatabook.Common.{List, [], ◌∷◌, ◌++◌, length, ltb, Option, none, some}
use marketdatabook.Common.{append_assoc, Bool-cases, inl, inr}
use marketdatabook.Common.Bytes.{Bytes}
use marketdatabook.Itch.{NormalizedOrder}
use marketdatabook.Spsc.Holds.{Holds, size}
use marketdatabook.Spsc.Calls.{push-Agrees}
use marketdatabook.Wal.{Crc}
use marketdatabook.Parser.{Parser, log_bytes, push_order}
use marketdatabook.Parser.Pushed.{log_bytes-queue}

module _ {A : Type 0} where
  nil-Sublistᴰ : (ys : List A) → Sublistᴰ [] ys
  nil-Sublistᴰ [] = slnil
  nil-Sublistᴰ (y ∷ ys) = cons (nil-Sublistᴰ ys)

  pub Sublistᴰ-append : {xs ys : List A} (zs : List A) → Sublistᴰ xs ys → Sublistᴰ xs (ys ++ zs)
  Sublistᴰ-append zs slnil = nil-Sublistᴰ zs
  Sublistᴰ-append zs (cons s) = cons (Sublistᴰ-append zs s)
  Sublistᴰ-append zs (cons-cons e s) = cons-cons e (Sublistᴰ-append zs s)

  last-Sublistᴰ : (ys : List A) (x : A) → Sublistᴰ (x ∷ []) (ys ++ x ∷ [])
  last-Sublistᴰ [] x = cons-cons refl slnil
  last-Sublistᴰ (y ∷ ys) x = cons (last-Sublistᴰ ys x)

  pub Sublistᴰ-snoc :
      {xs ys : List A} (x : A) → Sublistᴰ xs ys → Sublistᴰ (xs ++ x ∷ []) (ys ++ x ∷ [])
  Sublistᴰ-snoc x slnil = cons-cons refl slnil
  Sublistᴰ-snoc x (cons s) = cons (Sublistᴰ-snoc x s)
  Sublistᴰ-snoc x (cons-cons e s) = cons-cons e (Sublistᴰ-snoc x s)

  pub length-Sublistᴰ : {xs ys : List A} → Sublistᴰ xs ys → length xs ≤ length ys
  length-Sublistᴰ slnil = omega arith
  length-Sublistᴰ (cons s) = omega (arith, length-Sublistᴰ s)
  length-Sublistᴰ (cons-cons e s) = omega (arith, length-Sublistᴰ s)

  -- A part that is as long as the whole is the whole.
  pub Sublistᴰ-whole : {xs ys : List A} → Sublistᴰ xs ys → length xs ≡ length ys → xs ≡ ys
  Sublistᴰ-whole slnil e = refl
  Sublistᴰ-whole (cons s) e = absurd (omega (arith, length-Sublistᴰ s))
  Sublistᴰ-whole (cons-cons e s) l = ap₂ ◌∷◌ e (Sublistᴰ-whole s (omega arith))

-- The queue holds some orders, and those that are gone and those are, in order, among all.
pub record IsKept (k : ℕ) (p : Parser) (gone all : List NormalizedOrder) : Type 0 where
  pub waiting : List NormalizedOrder
  pub holds : Holds k p.queue waiting
  pub among : Sublistᴰ (gone ++ waiting) all

abbrev pub with_order : List NormalizedOrder → Option NormalizedOrder → List NormalizedOrder
with_order all none = all
with_order all (some o) = all ++ o ∷ []

module _ (crc : Crc) (rdtsc : ℕ → ℕ) (k : ℕ) (fits : k < 64) where
  pub push_order-IsKept :
      (p : Parser) (o : NormalizedOrder) (gone all : List NormalizedOrder)
      → IsKept k p gone all
      → IsKept k (push_order crc rdtsc k p o) gone (all ++ o ∷ [])
  push_order-IsKept p o gone all v = elim (Bool-cases (ltb (length v.waiting) (size k - 1))) [
    | inl room ↦ record {
      waiting = v.waiting ++ o ∷ [];
      holds = rw (room) at ((push-Agrees fits o v.holds).0);
      among = rw (← append_assoc gone v.waiting (o ∷ [])) (Sublistᴰ-snoc o v.among);
    }
    | inr full ↦ record {
      waiting = v.waiting;
      holds = rw (full) at ((push-Agrees fits o v.holds).0);
      among = Sublistᴰ-append (o ∷ []) v.among;
    }
  ]

  -- Logging a message leaves the queue alone.
  pub log_bytes-IsKept :
      (p : Parser) (raw : Bytes) (kind : ℕ) (gone all : List NormalizedOrder)
      → IsKept k p gone all
      → IsKept k (log_bytes crc rdtsc k p raw kind) gone all
  log_bytes-IsKept p raw kind gone all v = record {
    waiting = v.waiting;
    holds = rw (log_bytes-queue crc rdtsc k p raw kind) v.holds;
    among = v.among;
  }
