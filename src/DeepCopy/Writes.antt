-- ===== src/DeepCopy/Writes.antt =====
-- Writes through pointers, and what they leave alone.
use namespace_cost_governor.Base.{ℕ, ◌≤◌, ◌<◌, ◌≡◌, refl, ◌∙◌, List, [], ◌∷◌, All, arith}
use namespace_cost_governor.DeepCopy.Heap.{Heap, Cell}
use namespace_cost_governor.DeepCopy.Allocating.{write}
use namespace_cost_governor.DeepCopy.Stable.{Kept}
use namespace_cost_governor.DeepCopy.Copied.{IsSound, Grows}

-- The first one first.
unfoldable pub write_all : List (ℕ × Cell) → Heap → Heap
unfolding write
write_all [] h = h
write_all ((p, c) ∷ ws) h = write_all ws (write p c h)

-- Writes below `n` leave what lies from `n` on.
pub write_all-Kept :
    (n : ℕ) (ws : List (ℕ × Cell)) (h : Heap) → All (λ w. w.0 < n) ws → Kept n h (write_all ws h)
unfolding write_all write
write_all-Kept n [] h below = record { at_cell = λ a c le e. e }
write_all-Kept n ((p, d) ∷ ws) h below = record {
  at_cell = λ a c le e.
      (write_all-Kept n ws (write p d h) below.1).at_cell a c le (ground (arith, below.0));
}

-- Writes from `n` on leave what lies below `n`.
write_all-cell :
    (n : ℕ) (ws : List (ℕ × Cell)) (h : Heap) (a : ℕ)
    → All (λ w. n ≤ w.0) ws
    → a < n
    → (write_all ws h).cell a ≡ h.cell a
unfolding write_all write
write_all-cell n [] h a above lt = refl
write_all-cell n ((p, d) ∷ ws) h a above lt =
    write_all-cell n ws (write p d h) a above.1 lt ∙ ground (arith, above.0)

-- What lay in a sound heap is still there after it grew and new cells were written.
pub write_all-Grows :
    (ws : List (ℕ × Cell)) (h g : Heap)
    → IsSound h
    → Grows h g
    → All (λ w. h.next ≤ w.0) ws
    → Kept 0 h (write_all ws g)
write_all-Grows ws h g sound grows above = record {
  at_cell = λ a c le e.
      write_all-cell h.next ws g a above (ground (arith, sound.unused a))
      ∙ grows.kept.at_cell a c le e;
}
