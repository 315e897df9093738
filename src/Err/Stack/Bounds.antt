-- ===== src/Err/Stack/Bounds.antt =====
-- The number of lines of a stack trace.
use foundation_framework.Base.{
  ℕ, ◌+◌, ◌≤◌, ◌≡◌, List, [], ◌∷◌, length, drop, length-take, length-drop, arith,
}
use foundation_framework.Err.Stack.{Frame, callers, frame_lines, trace_lines}

length-frame_lines :
    (fs : List Frame)
    → (1 ≤ length (frame_lines fs))
      × (length fs ≤ length (frame_lines fs))
      × (length (frame_lines fs) ≤ length fs + 1)
      × (1 ≤ length fs → length (frame_lines fs) ≡ length fs)
unfolding frame_lines
length-frame_lines [] = omega arith
length-frame_lines (f ∷ []) = omega arith
length-frame_lines (f ∷ g ∷ fs) = ground (arith, length-frame_lines (g ∷ fs))

length-callers :
    (skip : ℕ) (stack : List Frame)
    → (length (callers skip stack) ≤ 32)
      × (36 + skip ≤ length stack → length (callers skip stack) ≡ 32)
unfolding callers
length-callers skip stack =
    omega (arith, length-take 32 (drop (4 + skip) stack), length-drop (4 + skip) stack)

-- A stack trace has at least one line and at most 32, and exactly 32 where the goroutine has 32
-- frames above the constructor's own and the skipped ones.
trace_lines_bounds :
    (skip : ℕ) (stack : List Frame)
    → (1 ≤ length (trace_lines skip stack))
      × (length (trace_lines skip stack) ≤ 32)
      × (36 + skip ≤ length stack → length (trace_lines skip stack) ≡ 32)
unfolding trace_lines
trace_lines_bounds skip stack =
    ground (arith, length-frame_lines (callers skip stack), length-callers skip stack)
