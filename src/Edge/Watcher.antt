-- ===== src/Edge/Watcher.antt =====
-- `DirectoryWatcher` of edge-gateway/src/edge_gateway/runtime.py: which files of a directory have been
-- left alone for long enough. The listing of the directory is given; times are in microseconds.
pub mod Once
use vision_qc.Prelude.{
  ℕ, ◌+◌, String, Option, none, some, Bool, true, false, ◌&&◌, ◌||◌, not, List, [], ◌∷◌, map, ltb,
  ◌==◌, if◌then◌else◌, str_eq, any_of, keep_if,
}

pub record Observation : Type 0 where
  pub size : ℕ
  pub mtime_ns : ℕ
  pub first_seen_monotonic : ℕ
  -- size and time of change
  pub emitted_fingerprint : Option (ℕ × ℕ)

-- One entry of the sorted listing: its resolved path, and its size and time of change unless `stat`
-- fails.
pub record Listed : Type 0 where
  pub key : String
  pub stat : Option (ℕ × ℕ)

abbrev pub Observations : Type 0
Observations = List (String × Observation)

abbrev pub observed : String → Observations → Option Observation
observed k [] = none
observed k ((j, o) ∷ rest) = let later = observed k rest in if str_eq j k then some o else later

abbrev pub note : String → Observation → Observations → Observations
note k o [] = (k, o) ∷ []
note k o ((j, p) ∷ rest) =
    let later = note k o rest in if str_eq j k then (j, o) ∷ rest else (j, p) ∷ later

abbrev pub same_stat : ℕ → ℕ → Observation → Bool
same_stat size mtime o = o.size == size && o.mtime_ns == mtime

abbrev pub was_emitted : ℕ → ℕ → Observation → Bool
was_emitted size mtime o = elim o.emitted_fingerprint [
  | none ↦ false
  | some (s, t) ↦ s == size && t == mtime
]

abbrev pub newly_seen : ℕ → ℕ → ℕ → Observation
newly_seen now size mtime = record {
  size = size;
  mtime_ns = mtime;
  first_seen_monotonic = now;
  emitted_fingerprint = none;
}

-- One turn of the loop of `stable_files` on a file that `stat` answers for: the observation that is
-- kept, and whether the file is stable.
unfoldable pub observe : ℕ → ℕ → ℕ → ℕ → Option Observation → Observation × Bool
observe now stable_for size mtime none = (newly_seen now size mtime, false)
observe now stable_for size mtime (some o) =
    if not (same_stat size mtime o)
    then (newly_seen now size mtime, false)
    else if ltb now (o.first_seen_monotonic + stable_for) || was_emitted size mtime o
    then (o, false)
    else (record o { emitted_fingerprint = some (size, mtime) }, true)

-- The loop: the observations, and the keys of the stable files in order.
unfoldable pub watch_loop : ℕ → ℕ → List Listed → Observations → Observations × List String
unfolding observe
watch_loop now stable_for [] obs = (obs, [])
watch_loop now stable_for (f ∷ files) obs = elim f.stat [
  | none ↦ watch_loop now stable_for files obs
  | some (size, mtime) ↦
      let seen = observe now stable_for size mtime (observed f.key obs) in
      let rest = watch_loop now stable_for files (note f.key seen.0 obs) in
      (rest.0, if seen.1 then f.key ∷ rest.1 else rest.1)
]

abbrev pub is_listed : List Listed → String × Observation → Bool
is_listed files (k, o) = any_of (λ f. str_eq f.key k) files

-- `stable_files`
unfoldable pub stable_files : ℕ → ℕ → List Listed → Observations → Observations × List String
unfolding watch_loop
stable_files now stable_for files obs =
    let seen = watch_loop now stable_for files obs in (keep_if (is_listed files) seen.0, seen.1)

-- `reset`
unfoldable pub reset : String → Observations → Observations
reset k obs = elim (observed k obs) [
  | none ↦ obs
  | some o ↦ note k (record o { emitted_fingerprint = none }) obs
]
