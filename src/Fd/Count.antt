-- ===== src/Fd/Count.antt =====
-- How many descriptors refer to an open file.
use tang_ping_os.Prelude.{
  ℕ, zero, suc, ◌+◌, ◌≤◌, ◌<◌, ◌≡◌, inl, inr, none, some, true, false, List, [], ◌∷◌, length,
  get_or, set, if◌then◌else◌, ◌==◌, arith, Option-cases,
}
use tang_ping_os.Fd.{
  TaskFile, OpenFile, no_file, no_open_file, target, free_open_slot, free_fd_from,
}

-- Whether the descriptor `f` refers to the open file `k`.
abbrev pub points : TaskFile → ℕ → ℕ
points f k = elim (target f) [ none ↦ 0 | some j ↦ if j == k then 1 else 0 ]

abbrev pub refs : List TaskFile → ℕ → ℕ
refs [] k = 0
refs (f ∷ fs) k = points f k + refs fs k

-- A descriptor in use refers to some open file of the table.
abbrev pub IsAimed : List TaskFile → Type 0
IsAimed [] = Unit {0}
IsAimed (f ∷ fs) = (f.in_use ≡ true → (k : ℕ) × (target f ≡ some k)) × IsAimed fs

points-le : (f : TaskFile) (k : ℕ) → points f k ≤ 1
points-le f k = ground arith

pub refs-le : (fs : List TaskFile) (k : ℕ) → refs fs k ≤ length fs
refs-le [] k = omega arith
refs-le (f ∷ fs) k = omega (arith, refs-le fs k, points-le f k)

-- A change of one descriptor changes the counts by what it and its old value refer to.
pub refs-set :
    (fs : List TaskFile) (i : ℕ) (g : TaskFile) (k : ℕ)
    → i < length fs
    → refs (set fs i g) k + points (get_or fs i no_file) k ≡ refs fs k + points g k
refs-set [] i g k h = absurd (omega arith)
refs-set (f ∷ fs) zero g k h = omega arith
refs-set (f ∷ fs) (suc i) g k h = omega (arith, refs-set fs i g k)

pub points-le-refs : (fs : List TaskFile) (i k : ℕ) → points (get_or fs i no_file) k ≤ refs fs k
points-le-refs [] i k = omega arith
points-le-refs (f ∷ fs) zero k = omega arith
points-le-refs (f ∷ fs) (suc i) k = omega (arith, points-le-refs fs i k)

-- Two descriptors that refer to one open file count twice.
pub points_two-le-refs :
    (fs : List TaskFile) (i j k : ℕ)
    → (i == j) ≡ false
    → points (get_or fs i no_file) k + points (get_or fs j no_file) k ≤ refs fs k
points_two-le-refs [] i j k h = omega arith
points_two-le-refs (f ∷ fs) zero zero k h = ground arith
points_two-le-refs (f ∷ fs) zero (suc j) k h = omega (arith, points-le-refs fs j k)
points_two-le-refs (f ∷ fs) (suc i) zero k h = omega (arith, points-le-refs fs i k)
points_two-le-refs (f ∷ fs) (suc i) (suc j) k h =
    omega (arith, points_two-le-refs fs i j k (ground arith))

pub IsAimed-get :
    (fs : List TaskFile) (i : ℕ)
    → IsAimed fs
    → (get_or fs i no_file).in_use ≡ true
    → (k : ℕ) × (target (get_or fs i no_file) ≡ some k)
IsAimed-get [] i a u = ground arith
IsAimed-get (f ∷ fs) zero a u = a.0 u
IsAimed-get (f ∷ fs) (suc i) a u = IsAimed-get fs i a.1 u

pub IsAimed-set :
    (fs : List TaskFile) (i : ℕ) (g : TaskFile)
    → IsAimed fs
    → (g.in_use ≡ true → (k : ℕ) × (target g ≡ some k))
    → IsAimed (set fs i g)
IsAimed-set [] i g a h = a
IsAimed-set (f ∷ fs) zero g a h = (h, a.1)
IsAimed-set (f ∷ fs) (suc i) g a h = (a.0, IsAimed-set fs i g a.1 h)

-- What the searches for a free slot return.
pub free_open_slot-some :
    (os : List OpenFile) (k : ℕ)
    → free_open_slot os ≡ some k
    → (k < length os)
      × ((get_or os k no_open_file).in_use ≡ false)
      × ((j : ℕ) → j < k → (get_or os j no_open_file).in_use ≡ true)
unfolding free_open_slot
free_open_slot-some [] k h = ground arith
free_open_slot-some (o ∷ os) zero h = elim (Option-cases (free_open_slot os)) [
  | inl e ↦ (omega arith, ground arith, λ j lt. absurd (omega arith))
  | inr (k, e) ↦ (omega arith, ground arith, λ j lt. absurd (omega arith))
]
free_open_slot-some (o ∷ os) (suc k) h = elim (Option-cases (free_open_slot os)) [
  | inl e ↦ ground arith
  | inr (i, e) ↦
      let used : o.in_use ≡ true = ground arith in
      let (lt, free, below) = free_open_slot-some os k (ground arith) in
      (omega arith, free, at_or_below used below)
]
  where
    at_or_below :
        o.in_use ≡ true
        → ((j : ℕ) → j < k → (get_or os j no_open_file).in_use ≡ true)
        → (j : ℕ) → j < suc k
        → (get_or (o ∷ os) j no_open_file).in_use ≡ true
    at_or_below used below zero lt = used
    at_or_below used below (suc j) lt = below j (omega arith)

all_in_use-cons :
    (f : TaskFile) (fs : List TaskFile) (first n : ℕ)
    → (first ≡ 0 → f.in_use ≡ true)
    → ((j : ℕ) → first ≤ suc j → j < n → (get_or fs j no_file).in_use ≡ true)
    → (j : ℕ) → first ≤ j
    → j < suc n
    → (get_or (f ∷ fs) j no_file).in_use ≡ true
all_in_use-cons f fs first n used below zero a b = used (omega arith)
all_in_use-cons f fs first n used below (suc j) a b = below j a (omega arith)

-- The descriptor that an open takes is free, not below the first, and the lowest such.
pub free_fd_from-some :
    (first : ℕ) (fs : List TaskFile) (n : ℕ)
    → free_fd_from first fs ≡ some n
    → (first ≤ n)
      × (n < length fs)
      × ((get_or fs n no_file).in_use ≡ false)
      × ((j : ℕ) → first ≤ j → j < n → (get_or fs j no_file).in_use ≡ true)
unfolding free_fd_from
free_fd_from-some zero [] n h = ground arith
free_fd_from-some (suc first) [] n h = ground arith
free_fd_from-some zero (f ∷ fs) zero h = elim (Option-cases (free_fd_from 0 fs)) [
  | inl e ↦ (omega arith, omega arith, ground arith, λ j a b. absurd (omega arith))
  | inr (k, e) ↦ (omega arith, omega arith, ground arith, λ j a b. absurd (omega arith))
]
free_fd_from-some zero (f ∷ fs) (suc n) h = elim (Option-cases (free_fd_from 0 fs)) [
  | inl e ↦ ground arith
  | inr (k, e) ↦
      let used : f.in_use ≡ true = ground arith in
      let (first_le, lt, free, below) = free_fd_from-some 0 fs n (ground arith) in
      (
        omega arith,
        omega arith,
        free,
        all_in_use-cons f fs 0 n (λ _. used) (λ j a b. below j (omega arith) b),
      )
]
free_fd_from-some (suc first) (f ∷ fs) zero h = elim (Option-cases (free_fd_from first fs)) [
  | inl e ↦ ground arith
  | inr (k, e) ↦ ground arith
]
free_fd_from-some (suc first) (f ∷ fs) (suc n) h = elim (Option-cases (free_fd_from first fs)) [
  | inl e ↦ ground arith
  | inr (k, e) ↦
      let (first_le, lt, free, below) = free_fd_from-some first fs n (ground arith) in
      (
        omega arith,
        omega arith,
        free,
        all_in_use-cons f fs (suc first) n (λ e. absurd (omega arith))
            (λ j a b. below j (omega arith) b),
      )
]

-- No descriptor is found only if all from the first on are in use.
pub free_fd_from-none :
    (first : ℕ) (fs : List TaskFile)
    → free_fd_from first fs ≡ none
    → (j : ℕ) → first ≤ j
    → j < length fs
    → (get_or fs j no_file).in_use ≡ true
unfolding free_fd_from
free_fd_from-none first [] h j a b = absurd (omega arith)
free_fd_from-none zero (f ∷ fs) h zero a b = elim (Option-cases (free_fd_from 0 fs)) [
  | inl e ↦ ground arith
  | inr (k, e) ↦ ground arith
]
free_fd_from-none zero (f ∷ fs) h (suc j) a b = elim (Option-cases (free_fd_from 0 fs)) [
  | inl e ↦ free_fd_from-none 0 fs e j (omega arith) (omega arith)
  | inr (k, e) ↦ ground arith
]
free_fd_from-none (suc first) (f ∷ fs) h zero a b = absurd (omega arith)
free_fd_from-none (suc first) (f ∷ fs) h (suc j) a b = elim (Option-cases (free_fd_from first fs)) [
  | inl e ↦ free_fd_from-none first fs e j (omega arith) (omega arith)
  | inr (k, e) ↦ ground arith
]
