-- ===== src/Nvfs/Inode/Codec.antt =====
-- An inode that `inode_write` of kernel/drivers/nvfs.c writes is the one `inode_read` finds.
use noverix.Base.{
  ℕ, zero, suc, ◌+◌, ◌*◌, ◌^◌, ◌≤◌, ◌<◌, ◌≡◌, ◌⊎◌, inl, inr, refl, arith, ◌∙◌, ap, sym, ◌==◌, ltb,
  if◌then◌else◌, update, u8, Bool-cases,
}
use noverix.Memory.{Mem, load32, store32, load32-store32, load32-store32_apart, store32_outside}
use noverix.Nvfs.Disk.{max_extents}
use noverix.Nvfs.Inode.{Extent, Inode, load_inode, store_extents, store_inode}

-- The values that the C types of the fields hold, and the extents that the inode has room for.
pub record IsInode (inode : Inode) : Type 0 where
  pub size_fits : inode.size < 2 ^ 32
  pub type_fits : inode.type < 256
  pub ctime_fits : (inode.ctime0 < 256) × (inode.ctime1 < 256) × (inode.ctime2 < 256)
  pub extents_fit : inode.extent_count ≤ 14
  pub starts_fit : (i : ℕ) → i < 14 → (inode.extents i).start < 2 ^ 32
  pub counts_fit : (i : ℕ) → i < 14 → (inode.extents i).count < 2 ^ 32
  pub mtime_fits : inode.mtime < 2 ^ 32

-- The same fields, and the same 14 extents.
pub record SameInode (a b : Inode) : Type 0 where
  pub size : a.size ≡ b.size
  pub type : a.type ≡ b.type
  pub ctime : (a.ctime0 ≡ b.ctime0) × (a.ctime1 ≡ b.ctime1) × (a.ctime2 ≡ b.ctime2)
  pub extent_count : a.extent_count ≡ b.extent_count
  pub starts : (i : ℕ) → i < 14 → (a.extents i).start ≡ (b.extents i).start
  pub counts : (i : ℕ) → i < 14 → (a.extents i).count ≡ (b.extents i).count
  pub mtime : a.mtime ≡ b.mtime

-- The bytes outside the extents that are still to be written.
store_extents_outside :
    (m : Mem) (p : ℕ) (exts : ℕ → Extent) (i n x : ℕ)
    → (x < p + i * 8) ⊎ (p + (i + n) * 8 ≤ x)
    → store_extents m p exts i n x ≡ m x
unfolding store_extents
store_extents_outside m p exts i zero x h = refl
store_extents_outside m p exts i (suc n) x h =
    let b : Mem = store32 m (p + i * 8) ((exts i).start) in
    store_extents_outside (store32 b (p + i * 8 + 4) ((exts i).count)) p exts (i + 1) n x
      (ground arith)
    ∙ store32_outside b (p + i * 8 + 4) ((exts i).count) x (ground arith)
    ∙ store32_outside m (p + i * 8) ((exts i).start) x (ground arith)

load32_same :
    (m n : Mem) (a : ℕ)
    → m a ≡ n a
    → m (a + 1) ≡ n (a + 1)
    → m (a + 2) ≡ n (a + 2)
    → m (a + 3) ≡ n (a + 3)
    → load32 m a ≡ load32 n a
unfolding load32
load32_same m n a e0 e1 e2 e3 = rw (e0, e1, e2, e3) refl

store_extents-load32_outside :
    (m : Mem) (p : ℕ) (exts : ℕ → Extent) (i n a : ℕ)
    → (a + 4 ≤ p + i * 8) ⊎ (p + (i + n) * 8 ≤ a)
    → load32 (store_extents m p exts i n) a ≡ load32 m a
store_extents-load32_outside m p exts i n a h =
    let out = store_extents_outside m p exts i n in
    load32_same (store_extents m p exts i n) m a (out a (ground arith)) (out (a + 1) (ground arith))
      (out (a + 2) (ground arith)) (out (a + 3) (ground arith))

-- What is loaded at an extent that was written.
store_extents-load32 :
    (m : Mem) (p : ℕ) (exts : ℕ → Extent) (i n j : ℕ)
    → i ≤ j
    → j < i + n
    → (exts j).start < 2 ^ 32
    → (exts j).count < 2 ^ 32
    → (load32 (store_extents m p exts i n) (p + j * 8) ≡ (exts j).start)
      × (load32 (store_extents m p exts i n) (p + j * 8 + 4) ≡ (exts j).count)
unfolding store_extents
store_extents-load32 m p exts i zero j l h a b = absurd (omega arith)
store_extents-load32 m p exts i (suc n) j l h a b =
    let first : Mem = store32 m (p + i * 8) ((exts i).start) in
    let both : Mem = store32 first (p + i * 8 + 4) ((exts i).count) in
    elim (Bool-cases (i == j)) [
      | inr e ↦ store_extents-load32 both p exts (i + 1) n j (ground arith) (omega arith) a b
      | inl e ↦
          let same : i ≡ j = ground arith in
          rw (sym same) (
            store_extents-load32_outside both p exts (i + 1) n (p + i * 8) (inl (omega arith))
                ∙ load32-store32_apart first (p + i * 8 + 4) ((exts i).count) (p + i * 8)
                    (inl (omega arith))
                ∙ load32-store32 m (p + i * 8) ((exts i).start) (ground (arith, ap exts same)),
            store_extents-load32_outside both p exts (i + 1) n (p + i * 8 + 4) (inl (omega arith))
                ∙ load32-store32 first (p + i * 8 + 4) ((exts i).count)
                    (ground (arith, ap exts same)),
          )
    ]

module _ (buf : Mem) (p : ℕ) (inode : Inode) where
  -- The bytes before the extents.
  abbrev sized : Mem
  sized = store32 buf (p + 0) inode.size

  abbrev front : Mem
  front =
      update
        (update (update (update sized (p + 4) (u8 inode.type)) (p + 5) (u8 inode.ctime0)) (p + 6)
          (u8 inode.ctime1))
        (p + 7) (u8 inode.ctime2)

  abbrev head : Mem
  head = store32 front (p + 8) inode.extent_count

  abbrev body : Mem
  body = store_extents head (p + 12) inode.extents 0 14

  stored : (x : ℕ) → x < p + 12 → store_inode buf p inode x ≡ head x
  unfolding store_inode
  stored x h =
      store32_outside body (p + 124) inode.mtime x (inl (omega arith))
      ∙ store_extents_outside head (p + 12) inode.extents 0 14 x (inl (omega arith))

  stored32 : (a : ℕ) → a + 4 ≤ p + 12 → load32 (store_inode buf p inode) a ≡ load32 head a
  stored32 a h =
      load32_same (store_inode buf p inode) head a (stored a (omega arith))
        (stored (a + 1) (omega arith)) (stored (a + 2) (omega arith)) (stored (a + 3) (omega arith))

  head_size : inode.size < 2 ^ 32 → load32 head (p + 0) ≡ inode.size
  head_size h =
      load32-store32_apart front (p + 8) inode.extent_count (p + 0) (inl (omega arith))
      ∙ load32_same front sized (p + 0) (ground arith) (ground arith) (ground arith) (ground arith)
      ∙ load32-store32 buf (p + 0) inode.size h

  head_byte : (k : ℕ) → k < 8 → head (p + k) ≡ front (p + k)
  head_byte k h = store32_outside front (p + 8) inode.extent_count (p + k) (inl (omega arith))

  -- What `load_inode` reads from what `store_inode` wrote.
  pub load_inode-store_inode :
      IsInode inode → SameInode (load_inode (store_inode buf p inode) p) inode
  unfolding load_inode store_inode
  load_inode-store_inode v = record {
    size = stored32 (p + 0) (omega arith) ∙ head_size v.size_fits;
    type = stored (p + 4) (omega arith) ∙ head_byte 4 (omega arith) ∙ ground (arith, v.type_fits);
    ctime = (
      stored (p + 5) (omega arith) ∙ head_byte 5 (omega arith) ∙ ground (arith, v.ctime_fits),
      stored (p + 6) (omega arith) ∙ head_byte 6 (omega arith) ∙ ground (arith, v.ctime_fits),
      stored (p + 7) (omega arith) ∙ head_byte 7 (omega arith) ∙ ground (arith, v.ctime_fits),
    );
    extent_count =
        let there : load32 (store_inode buf p inode) (p + 8) ≡ inode.extent_count =
          stored32 (p + 8) (omega arith)
          ∙ load32-store32 front (p + 8) inode.extent_count (omega (arith, v.extents_fit)) in
        ground (arith, there, v.extents_fit);
    starts = λ i h.
        load32-store32_apart body (p + 124) inode.mtime (p + 12 + i * 8) (inl (omega arith))
        ∙ (store_extents-load32 head (p + 12) inode.extents 0 14 i (omega arith) h
            (v.starts_fit i h) (v.counts_fit i h)).0;
    counts = λ i h.
        load32-store32_apart body (p + 124) inode.mtime (p + 12 + i * 8 + 4) (inl (omega arith))
        ∙ (store_extents-load32 head (p + 12) inode.extents 0 14 i (omega arith) h
            (v.starts_fit i h) (v.counts_fit i h)).1;
    mtime = load32-store32 body (p + 124) inode.mtime v.mtime_fits;
  }

  pub store_inode_outside : (x : ℕ) → (x < p) ⊎ (p + 128 ≤ x) → store_inode buf p inode x ≡ buf x
  unfolding store_inode
  store_inode_outside x h =
      store32_outside body (p + 124) inode.mtime x (ground arith)
      ∙ store_extents_outside head (p + 12) inode.extents 0 14 x (ground arith)
      ∙ store32_outside front (p + 8) inode.extent_count x (ground arith)
      ∙ front_outside
      ∙ store32_outside buf (p + 0) inode.size x (ground arith)
    where
      front_outside : front x ≡ sized x
      front_outside = ground arith

pub load_inode_same :
    (m n : Mem) (q : ℕ)
    → ((x : ℕ) → q ≤ x → x < q + 128 → m x ≡ n x)
    → SameInode (load_inode m q) (load_inode n q)
unfolding load_inode
load_inode_same m n q h = record {
  size = word 0 (omega arith);
  type = h (q + 4) (omega arith) (omega arith);
  ctime = (
    h (q + 5) (omega arith) (omega arith),
    h (q + 6) (omega arith) (omega arith),
    h (q + 7) (omega arith) (omega arith),
  );
  extent_count = ap (λ c. if ltb max_extents c then max_extents else c) (word 8 (omega arith));
  starts = λ i l. at_word (q + 12 + i * 8) (omega arith) (omega arith);
  counts = λ i l. at_word (q + 12 + i * 8 + 4) (omega arith) (omega arith);
  mtime = word 124 (omega arith);
}
  where
    at_word : (a : ℕ) → q ≤ a → a + 4 ≤ q + 128 → load32 m a ≡ load32 n a
    at_word a l u =
        load32_same m n a (h a (omega arith) (omega arith)) (h (a + 1) (omega arith) (omega arith))
          (h (a + 2) (omega arith) (omega arith)) (h (a + 3) (omega arith) (omega arith))

    word : (k : ℕ) → k ≤ 124 → load32 m (q + k) ≡ load32 n (q + k)
    word k l = at_word (q + k) (omega arith) (omega arith)
