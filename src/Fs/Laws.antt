-- ===== src/Fs/Laws.antt =====
-- Laws of entries and file contents.
use logline.Base.{
  ℕ, ◌+◌, ◌-◌, ◌≡◌, refl, ◌↔◌, true, none, some, [], ◌∷◌, ◌++◌, append-nil, arith, ◌==◌,
  if◌then◌else◌, length, take-length, drop-length, length-append, Bytes, text_eq_iff,
}
use logline.Fs.{FilePath, path_eq, Node, Entries, Fs, Handle, find, remove, put, overwrite, write}

pub path_eq_iff : (p q : FilePath) → (path_eq p q ≡ true) ↔ (p ≡ q)
unfolding path_eq
path_eq_iff [] [] = (λ h. refl, λ h. refl)
path_eq_iff [] (d ∷ q) = (λ h. cc, λ h. cc)
path_eq_iff (c ∷ p) [] = (λ h. cc, λ h. cc)
path_eq_iff (c ∷ p) (d ∷ q) = ground (arith, text_eq_iff c d, path_eq_iff p q)

pub path_eq_refl : (p : FilePath) → path_eq p p ≡ true
path_eq_refl p = (path_eq_iff p p).1 refl

pub find-remove :
    (p q : FilePath) (es : Entries)
    → find q (remove p es) ≡ (if path_eq p q then none else find q es)
unfolding find remove
find-remove p q [] = ground arith
find-remove p q ((r, n) ∷ es) =
    ground (arith, find-remove p q es, path_eq_iff r p, path_eq_iff r q, path_eq_iff p q)

pub find-put :
    (p q : FilePath) (n : Node) (es : Entries)
    → find q (put p n es) ≡ (if path_eq p q then some n else find q es)
unfolding find
find-put p q n es = ground (arith, find-remove p q es)

-- A write at the end of the file appends.
pub overwrite_at_end : (new old : Bytes) → overwrite (length old) new old ≡ old ++ new
unfolding overwrite
overwrite_at_end new old =
    let no_gap : length old - length old ≡ 0 = omega arith in
    simp (
      take-length (length old) old (omega arith),
      drop-length (length old + length new) old (omega arith),
      no_gap,
      append-nil,
    )

-- Below the position of a write the bytes stay.
pub write-content :
    (h : Handle) (new : Bytes) (fs : Fs) (j : ℕ)
    → (write h new fs).1.content j
      ≡ (if h.inode == j then (write h new fs).1.content h.inode else fs.content j)
unfolding write
write-content h [] fs j = ground arith
write-content h (b ∷ new) fs j = ground arith

pub write-entries : (h : Handle) (new : Bytes) (fs : Fs) → (write h new fs).1.entries ≡ fs.entries
unfolding write
write-entries h [] fs = refl
write-entries h (b ∷ new) fs = refl

pub write-next : (h : Handle) (new : Bytes) (fs : Fs) → (write h new fs).1.next ≡ fs.next
unfolding write
write-next h [] fs = refl
write-next h (b ∷ new) fs = refl

-- A descriptor at the end of its file appends, and stays at the end.
pub write_appends :
    (h : Handle) (new : Bytes) (fs : Fs)
    → h.position ≡ length (fs.content h.inode)
    → ((write h new fs).1.content h.inode ≡ fs.content h.inode ++ new)
      × ((write h new fs).0.position ≡ length ((write h new fs).1.content h.inode))
      × ((write h new fs).0.inode ≡ h.inode)
unfolding write
write_appends h [] fs e = (rw append-nil, e, refl)
write_appends h (b ∷ new) fs e =
    let at_end : overwrite h.position (b ∷ new) (fs.content h.inode)
        ≡ fs.content h.inode ++ b ∷ new =
      rw e (overwrite_at_end (b ∷ new) (fs.content h.inode)) in
    ground (arith, at_end, length-append (fs.content h.inode) (b ∷ new))
