-- ===== src/Initrd/Listing.antt =====
-- Listing a directory of the archive, which has no entries for directories of its own.
use mathlib.Core.Option
use tang_ping_os.Prelude.{
  ℕ, zero, suc, ◌+◌, ◌-◌, ◌≡◌, refl, ◌∙◌, ap, inl, inr, Option, none, some, Bool, true, false, not,
  ◌&&◌, ◌||◌, List, [], ◌∷◌, ◌++◌, Text, chars_equal, chars_equal_iff, chars_equal_refl,
  copy_limited, get_elem?, ◌==◌, if◌then◌else◌, Bool-cases, Option-cases, arith,
}
use tang_ping_os.Vfs.Entry.{Dirent, DirentType}
use tang_ping_os.Initrd.{
  File, dirent_name_max, path_child_for_dir, listed_child, list_from, list_dir, dir_of,
}

-- A child of a directory: its name, whether it is a directory, and the file that shows it first.
pub record Child : Type 0 where
  pub name : Text
  pub is_dir : Bool
  pub file : File

abbrev pub dirent_of : Child → Dirent
dirent_of c = record {
  name = copy_limited dirent_name_max c.name;
  type = if c.is_dir then DirentType.dir else DirentType.file;
  size = if c.is_dir then 0 else c.file.size;
}

-- The child of the directory that a file is or lies in.
abbrev pub child_of : Text → File → Option Child
child_of dir f = elim (path_child_for_dir f.name dir) [
  | none ↦ none
  | some (name, is_dir) ↦ some (record { name = name; is_dir = is_dir; file = f })
]

abbrev pub has_name : Text → List Child → Bool
has_name name [] = false
has_name name (c ∷ cs) = chars_equal c.name name || has_name name cs

-- The children that the files show, but for those that the names in `seen` show.
abbrev pub children : Text → List Child → List File → List Child
children dir seen [] = []
children dir seen (f ∷ fs) = elim (child_of dir f) [
  | none ↦ children dir seen fs
  | some c ↦ if has_name c.name seen then children dir seen fs else c ∷ children dir (c ∷ seen) fs
]

abbrev pub Distinct : List Child → Type 0
Distinct [] = Unit
Distinct (c ∷ cs) = (has_name c.name cs ≡ false) × Distinct cs

-- Two names are listed alike if they are equal.
has_name_congr :
    (a b : Text) (cs : List Child) → chars_equal a b ≡ true → has_name a cs ≡ has_name b cs
has_name_congr a b cs e = ap (λ (t : Text). has_name t cs) ((chars_equal_iff a b).0 e)

listed_child_snoc :
    (dir : Text) (before : List File) (f : File) (name : Text)
    → listed_child dir (before ++ (f ∷ [])) name ≡ (
        listed_child dir before name
        || elim (child_of dir f) [ none ↦ false | some c ↦ chars_equal c.name name ])
unfolding listed_child
listed_child_snoc dir [] f name = ground arith
listed_child_snoc dir (g ∷ before) f name = ground (arith, listed_child_snoc dir before f name)

has_name-children :
    (dir name : Text) (seen : List Child) (fs : List File)
    → has_name name (children dir seen fs) ≡ (listed_child dir fs name && not (has_name name seen))
unfolding listed_child
has_name-children dir name seen [] = refl
has_name-children dir name seen (f ∷ fs) = elim (Option-cases (path_child_for_dir f.name dir)) [
  | inl e ↦ ground (arith, has_name-children dir name seen fs)
  | inr ((child, is_dir), e) ↦
      let c : Child = record { name = child; is_dir = is_dir; file = f } in
      elim (Bool-cases (has_name child seen)) [
        | inl before ↦
            ground (arith, has_name-children dir name seen fs, has_name_congr child name seen)
        | inr first ↦
            ground (arith, has_name-children dir name (c ∷ seen) fs, has_name_congr child name seen)
      ]
]

children-Distinct :
    (dir : Text) (seen : List Child) (fs : List File) → Distinct (children dir seen fs)
children-Distinct dir seen [] = tt
children-Distinct dir seen (f ∷ fs) = elim (Option-cases (path_child_for_dir f.name dir)) [
  | inl e ↦
      let same : children dir seen (f ∷ fs) ≡ children dir seen fs = ground arith in
      rw same (children-Distinct dir seen fs)
  | inr ((child, is_dir), e) ↦
      let c : Child = record { name = child; is_dir = is_dir; file = f } in
      elim (Bool-cases (has_name child seen)) [
        | inl before ↦
            let same : children dir seen (f ∷ fs) ≡ children dir seen fs = ground arith in
            rw same (children-Distinct dir seen fs)
        | inr first ↦
            let same : children dir seen (f ∷ fs) ≡ c ∷ children dir (c ∷ seen) fs = ground arith in
            rw same (
              ground (arith, has_name-children dir child (c ∷ seen) fs, chars_equal_refl child),
              children-Distinct dir (c ∷ seen) fs,
            )
      ]
]

-- The files before have shown just the names seen.
abbrev Agree : Text → List File → List Child → Type 0
Agree dir before seen = (name : Text) → listed_child dir before name ≡ has_name name seen

Agree-skip :
    (dir : Text) (before : List File) (seen : List Child) (f : File)
    → path_child_for_dir f.name dir ≡ none
    → Agree dir before seen
    → Agree dir (before ++ (f ∷ [])) seen
Agree-skip dir before seen f e agree name =
    listed_child_snoc dir before f name ∙ ground (arith, agree name)

Agree-seen :
    (dir : Text) (before : List File) (seen : List Child) (f : File) (child : Text) (is_dir : Bool)
    → path_child_for_dir f.name dir ≡ some (child, is_dir)
    → has_name child seen ≡ true
    → Agree dir before seen
    → Agree dir (before ++ (f ∷ [])) seen
Agree-seen dir before seen f child is_dir e shown agree name =
    listed_child_snoc dir before f name ∙ ground (arith, agree name, has_name_congr child name seen)

Agree-new :
    (dir : Text) (before : List File) (seen : List Child) (f : File) (child : Text) (is_dir : Bool)
    → path_child_for_dir f.name dir ≡ some (child, is_dir)
    → Agree dir before seen
    → Agree dir (before ++ (f ∷ [])) (record { name = child; is_dir = is_dir; file = f } ∷ seen)
Agree-new dir before seen f child is_dir e agree name =
    listed_child_snoc dir before f name ∙ ground (arith, agree name)

get_elem?_later :
    (c : Child) (cs : List Child) (k : ℕ) → ¬ k ≡ 0 → get_elem? (c ∷ cs) k ≡ get_elem? cs (k - 1)
get_elem?_later c cs zero ne = absurd (ne refl)
get_elem?_later c cs (suc k) ne = ap (λ (i : ℕ). get_elem? cs i) (omega arith)

-- The source looks back at the files before, the specification at the names seen.
list_from-children :
    (dir : Text) (before : List File) (seen : List Child) (fs : List File) (n k : ℕ)
    → Agree dir before seen
    → list_from dir before fs (n + k) n ≡ Option.map dirent_of (get_elem? (children dir seen fs) k)
unfolding list_from
list_from-children dir before seen [] n k agree = ground arith
list_from-children dir before seen (f ∷ fs) n k agree =
    elim (Option-cases (path_child_for_dir f.name dir)) [
      | inl e ↦
          let rest =
            list_from-children dir (before ++ (f ∷ [])) seen fs n k
              (Agree-skip dir before seen f e agree) in
          ground arith
      | inr ((child, is_dir), e) ↦
          let c : Child = record { name = child; is_dir = is_dir; file = f } in
          let shown = agree child in
          elim (Bool-cases (has_name child seen)) [
            | inl old ↦
                let rest =
                  list_from-children dir (before ++ (f ∷ [])) seen fs n k
                    (Agree-seen dir before seen f child is_dir e old agree) in
                ground arith
            | inr new ↦ elim (Bool-cases (k == 0)) [
              | inl now ↦ let at : k ≡ 0 = ground arith in ground arith
              | inr later ↦
                  let at : n + k ≡ n + 1 + (k - 1) = ground arith in
                  let rest =
                    list_from-children dir (before ++ (f ∷ [])) (c ∷ seen) fs (n + 1) (k - 1)
                      (Agree-new dir before seen f child is_dir e agree) in
                  ground (arith, get_elem?_later c (children dir (c ∷ seen) fs) k)
            ]
          ]
    ]

-- A directory is listed as the children that the files show, in the order of the files and each once,
-- with no entry at an index past the last child. The name of an entry is the first 63 characters of
-- the child's name. The children's own names, before they are cut, differ from each other, and some
-- child has a name just when some file is or lies in a child of that name.
pub list_dir_lem :
    (files : List File) (path : Text) (index : ℕ)
    → (list_dir files path index
        ≡ Option.map dirent_of (get_elem? (children (dir_of path) [] files) index))
      × Distinct (children (dir_of path) [] files)
      × ((name : Text)
          → has_name name (children (dir_of path) [] files) ≡ listed_child (dir_of path) files name)
unfolding list_dir listed_child
list_dir_lem files path index = (
  ap (λ (i : ℕ). list_from (dir_of path) [] files i 0) (omega arith)
      ∙ list_from-children (dir_of path) [] [] files 0 index (λ name. refl),
  children-Distinct (dir_of path) [] files,
  λ name. ground (arith, has_name-children (dir_of path) name [] files),
)
