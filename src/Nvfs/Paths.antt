-- ===== src/Nvfs/Paths.antt =====
-- `resolve_path` of kernel/drivers/nvfs.c. A path is the list of its bytes before the zero. The
-- name that is returned has to fit the 28 bytes that the callers give for it; that the code does
-- not check this is not modelled.
use noverix.Base.{
  ℕ, ◌==◌, ◌!=◌, if◌then◌else◌, ◌&&◌, Bool, true, false, Option, none, some, List, [], ◌∷◌, ◌++◌,
  take,
}
use noverix.Nvfs.Disk.{
  type_dir, err_path, err_not_found, err_io, err_not_dir, M, pure, fail_with, fail_if, or_errno,
  get, ◌>>=◌, ◌>>◌,
}
use noverix.Nvfs.Inode.{inode_read}
use noverix.Nvfs.Directory.{dir_find, find_parent, to_upper}

unfoldable pub bytes_eq : List ℕ → List ℕ → Bool
bytes_eq [] [] = true
bytes_eq [] (y ∷ ys) = false
bytes_eq (x ∷ xs) [] = false
bytes_eq (x ∷ xs) (y ∷ ys) = (x == y) && bytes_eq xs ys

abbrev pub is_dot : List ℕ → Bool
is_dot name = bytes_eq name (b'.' ∷ [])

abbrev pub is_dot_dot : List ℕ → Bool
is_dot_dot name = bytes_eq name (b'.' ∷ b'.' ∷ [])

-- The components that a slash ends, and what stands behind the last slash; `seg` is the component
-- so far.
unfoldable pub split_path : List ℕ → (seg : List ℕ) → List (List ℕ) × List ℕ
split_path [] seg = ([], seg)
split_path (c ∷ cs) seg =
    let next = split_path cs [] in
    let more = split_path cs (seg ++ (c ∷ [])) in if c == b'/' then (seg ∷ next.0, next.1) else more

abbrev pub or_bad_path : Option ℕ → M ℕ
or_bad_path none = fail_with err_path
or_bad_path (some p) = pure p

unfoldable pub enter_named : (cur : ℕ) → (comp : List ℕ) → M ℕ
enter_named cur comp = do
  inum ← or_errno (dir_find cur (to_upper comp)) err_not_found
  inode ← or_errno (inode_read inum) err_io
  fail_if (inode.type != type_dir) err_not_dir
  pure inum

-- One round of the loop over the components.
unfoldable pub enter : (cur : ℕ) → (comp : List ℕ) → M ℕ
enter cur [] = pure cur
enter cur (c ∷ cs) =
    if is_dot_dot (c ∷ cs)
    then (get >>= λ s. or_bad_path (find_parent s cur))
    else if is_dot (c ∷ cs)
    then pure cur
    else enter_named cur (c ∷ cs)

unfoldable pub enter_all : (cur : ℕ) → List (List ℕ) → M ℕ
enter_all cur [] = pure cur
enter_all cur (x ∷ xs) = enter cur x >>= λ next. enter_all next xs

abbrev pub in_parent : ℕ → M (ℕ × List ℕ)
in_parent p = pure (p, [])

-- What stands behind the last slash.
unfoldable pub last_name : (cur : ℕ) → (name : List ℕ) → M (ℕ × List ℕ)
last_name cur name =
    if is_dot_dot name
    then (get >>= λ s. or_bad_path (find_parent s cur) >>= in_parent)
    else if is_dot name
    then pure (cur, [])
    else pure (cur, to_upper name)

unfoldable pub resolve_from : (cur : ℕ) → List ℕ → M (ℕ × List ℕ)
resolve_from cur buf =
    enter_all cur (split_path buf []).0 >>= λ dir. last_name dir (split_path buf []).1

abbrev pub resolve_buf : List ℕ → M (ℕ × List ℕ)
resolve_buf [] s = pure (s.cwd, []) s
resolve_buf (c ∷ cs) s = if c == b'/' then resolve_from 0 cs s else resolve_from s.cwd (c ∷ cs) s

-- The parent's inode and the last component, empty if the path is a directory by itself.
unfoldable pub resolve_path : List ℕ → M (ℕ × List ℕ)
resolve_path path = resolve_buf (take 255 path)
