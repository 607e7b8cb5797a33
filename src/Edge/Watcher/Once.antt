-- ===== src/Edge/Watcher/Once.antt =====
-- How often a file is handed over while it is left alone.
use vision_qc.Prelude.{
  ℕ, ◌+◌, Option, none, some, Bool, false, List, [], ◌∷◌, ◌≡◌, All, count_if, ltb, leb,
}
use vision_qc.Edge.Watcher.{Observation, same_stat, observe}

-- One look at a file: a time, with the size and the time of change that `stat` tells then.
pub record Look : Type 0 where
  pub now : ℕ
  pub size : ℕ
  pub mtime : ℕ

-- Looks at one file, one after another: whether it is handed over at each.
abbrev pub watch : ℕ → Option Observation → List Look → List Bool
watch stable_for o [] = []
watch stable_for o (l ∷ ls) =
    let seen = observe l.now stable_for l.size l.mtime o in
    seen.1 ∷ watch stable_for (some seen.0) ls

abbrev pub times : List Bool → ℕ
times bs = count_if (λ b. b) bs

-- The file is left alone: each look finds the size and the time of change.
abbrev pub Unchanged : ℕ → ℕ → List Look → Type 0
Unchanged size mtime ls = All (λ (l : Look). (l.size ≡ size) × (l.mtime ≡ mtime)) ls

-- The file is not known, or was known with another size or time of change.
abbrev pub IsNew : ℕ → ℕ → Option Observation → Type 0
IsNew size mtime none = Unit {0}
IsNew size mtime (some o) = same_stat size mtime o ≡ false

module _ (d size mtime : ℕ) where
  abbrev early : ℕ → Observation → Bool
  early now o = ltb now (o.first_seen_monotonic + d)

  abbrev handed : Observation → Observation
  handed o = record o { emitted_fingerprint = some (size, mtime) }

  -- A look that comes when the file has been left alone for long enough.
  abbrev pub is_late : ℕ → Look → Bool
  is_late first l = leb (first + d) l.now
