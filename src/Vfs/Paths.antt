-- ===== src/Vfs/Paths.antt =====
-- Which mounts a path belongs to, and what path the mounted file system is given.
use tang_ping_os.Prelude.{
  ℕ, zero, suc, ◌-◌, ◌≤◌, ◌<◌, ◌≡◌, refl, ◌≢◌, ◌↔◌, inl, inr, ◌∙◌, true, false, ◌||◌, [], ◌∷◌, ◌++◌,
  Text, chars_equal, chars_equal_iff, copy_limited, length, length-take, get_or, take, drop, ltb,
  ◌==◌, if◌then◌else◌, Bool-cases, arith,
}
use tang_ping_os.Vfs.{
  root, strip_slashes, copy_mount_path, begins_with, mount_path_matches, mount_local_path,
  mount_path_max,
}

-- A C string holds no NUL.
abbrev pub IsCString : Text → Type 0
IsCString [] = Unit
IsCString (c ∷ s) = (c ≢ 0) × IsCString s

-- A path is absolute, or the rest of one: it is empty or goes on with a slash.
abbrev pub AtBoundary : Text → Type 0
AtBoundary [] = Unit
AtBoundary (c ∷ s) = c ≡ b'/'

begins_with→append :
    (mount path : Text) → begins_with mount path ≡ true → path ≡ mount ++ drop (length mount) path
unfolding begins_with
begins_with→append [] path h = refl
begins_with→append (c ∷ mount) [] h = ground arith
begins_with→append (c ∷ mount) (d ∷ path) h = ground (arith, begins_with→append mount path)

begins_with-append : (mount rest : Text) → begins_with mount (mount ++ rest) ≡ true
unfolding begins_with
begins_with-append [] rest = refl
begins_with-append (c ∷ mount) rest = ground (arith, begins_with-append mount rest)

drop-append : (mount rest : Text) → drop (length mount) (mount ++ rest) ≡ rest
drop-append [] rest = refl
drop-append (c ∷ mount) rest = drop-append mount rest

get_or-drop_head : (n : ℕ) (s : Text) → get_or s n 0 ≡ get_or (drop n s) 0 0
get_or-drop_head zero s = refl
get_or-drop_head (suc n) [] = refl
get_or-drop_head (suc n) (c ∷ s) = get_or-drop_head n s

IsCString-drop : (n : ℕ) (s : Text) → IsCString s → IsCString (drop n s)
IsCString-drop zero s h = h
IsCString-drop (suc n) [] h = h
IsCString-drop (suc n) (c ∷ s) h = IsCString-drop n s h.1

boundary_iff :
    (s : Text) → IsCString s → ((get_or s 0 0 == 0 || get_or s 0 0 == b'/') ≡ true) ↔ AtBoundary s
boundary_iff [] h = (λ e. tt, λ e. refl)
boundary_iff (c ∷ s) h = (λ e. let ne = h.0 in ground arith, λ e. ground arith)

-- The rest of a C string is at a boundary where the code sees its end or a slash.
boundary_iff_of :
    (mount path rest : Text)
    → IsCString path
    → path ≡ mount ++ rest
    → ((get_or path (length mount) 0 == 0 || get_or path (length mount) 0 == b'/') ≡ true)
      ↔ AtBoundary rest
boundary_iff_of mount path rest h e =
    let tail : drop (length mount) path ≡ rest = rw e (drop-append mount rest) in
    let string : IsCString rest = rw tail at (IsCString-drop (length mount) path h) in
    let first : get_or path (length mount) 0 ≡ get_or rest 0 0 =
      get_or-drop_head (length mount) path ∙ rw tail refl in
    rw first (boundary_iff rest string)

local_of_rest :
    (mount path rest : Text)
    → IsCString path
    → chars_equal mount root ≡ false
    → path ≡ mount ++ rest
    → mount_local_path mount path ≡ (if length rest == 0 then root else rest)
unfolding mount_local_path
local_of_rest mount path [] h ne e =
    let first : get_or path (length mount) 0 ≡ 0 =
      get_or-drop_head (length mount) path ∙ rw (e, drop-append mount []) refl in
    rw (ne, first) refl
local_of_rest mount path (c ∷ s) h ne e =
    let tail : drop (length mount) path ≡ c ∷ s = rw e (drop-append mount (c ∷ s)) in
    let string : IsCString (c ∷ s) = rw tail at (IsCString-drop (length mount) path h) in
    let first : get_or path (length mount) 0 ≡ c =
      get_or-drop_head (length mount) path ∙ rw tail refl in
    let nonzero = string.0 in rw (ne, first, tail) (ground arith)

-- An absolute path, a C string, belongs to a mount point other than the root exactly if it is the
-- mount point's path followed by nothing or by a slash and more; the file system then gets that
-- rest as its path, or `/` for the mount point itself.
pub mount_path_matches_iff :
    (mount path : Text)
    → IsCString path
    → get_or path 0 0 ≡ b'/'
    → mount ≢ root
    → ((mount_path_matches mount path ≡ true)
        ↔ ((rest : Text) × (path ≡ mount ++ rest) × AtBoundary rest))
      × ((rest : Text)
          → path ≡ mount ++ rest
          → mount_local_path mount path ≡ (if length rest == 0 then root else rest))
unfolding mount_path_matches
mount_path_matches_iff mount path h abs ne = (
  (
    λ m.
        let begins : begins_with mount path ≡ true = ground (arith, not_root) in
        let split = begins_with→append mount path begins in
        (
          drop (length mount) path,
          split,
          (boundary_iff_of mount path (drop (length mount) path) h split).0
              (ground (arith, not_root)),
        ),
    λ r.
        let (rest, split, edge) = r in
        let ends = (boundary_iff_of mount path rest h split).1 edge in
        let begins : begins_with mount path ≡ true = rw split (begins_with-append mount rest) in
        rw (abs, not_root, begins, ends) refl,
  ),
  λ rest e. local_of_rest mount path rest h not_root e,
)
  where
    not_root : chars_equal mount root ≡ false
    not_root = ground (arith, chars_equal_iff mount root)

-- What the cutting of slashes leaves has none at its end, unless it is one character long.
abbrev pub IsCanonical : Text → Type 0
IsCanonical s = (0 < length s) × (1 < length s → get_or s (length s - 1) 0 ≢ b'/')

strip_slashes-IsCanonical :
    (fuel : ℕ) (s : Text)
    → length s ≤ fuel
    → 0 < length s
    → IsCanonical (strip_slashes fuel s) × (length (strip_slashes fuel s) ≤ length s)
unfolding strip_slashes
strip_slashes-IsCanonical zero s h p = absurd (omega arith)
strip_slashes-IsCanonical (suc fuel) s h p = elim (Bool-cases (ltb 1 (length s))) [
  | inr short ↦ rw short ((p, λ long. absurd (ground arith)), omega arith)
  | inl long ↦ elim (Bool-cases (get_or s (length s - 1) 0 == b'/')) [
    | inr kept ↦ rw (long, kept) ((p, λ _. ground arith), omega arith)
    | inl slash ↦
        let cut = length-take (length s - 1) s in
        let (canonical, shorter) =
          strip_slashes-IsCanonical fuel (take (length s - 1) s) (omega (arith, cut))
            (ground (arith, cut)) in
        rw (long, slash) (canonical, omega (arith, cut, shorter))
  ]
]

-- A mount point is kept as a non-empty path of at most 63 characters that does not end in a slash,
-- unless it is the root.
pub copy_mount_path-IsCanonical :
    (path : Text)
    → IsCanonical (copy_mount_path path) × (length (copy_mount_path path) < mount_path_max)
unfolding copy_mount_path copy_limited
copy_mount_path-IsCanonical path =
    let copied : Text = take 63 (if length path == 0 then root else path) in
    let size = length-take 63 (if length path == 0 then root else path) in
    let filled : 0 < length copied = ground (arith, size) in
    let (canonical, shorter) =
      strip_slashes-IsCanonical (length copied) copied (omega arith) filled in
    (canonical, omega (arith, shorter, size))
