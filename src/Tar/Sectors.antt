-- ===== src/Tar/Sectors.antt =====
-- The loops over the sectors of the disk in `fs_init` and `fs_flush` of kernel/src/tar.rs.
use beyond_os1k.Base.{
  ℕ, zero, suc, ◌+◌, ◌-◌, ◌*◌, ◌/◌, ◌≤◌, ◌<◌, ◌≡◌, ◌≢◌, refl, sym, ap, ◌∙◌, inl, inr, arith, true,
  false, List, [], ◌∷◌, ◌++◌, length, take, drop, part, overlay, slice-ok, copy_into-ok,
  length-overlay, split_at, drop-drop, take-append_eq, length-take, length-drop, length-append,
  take-nil, ◌==◌, if◌then◌else◌, Bool-cases, ==→eq, ==→ne, ok,
}
use mathlib.Core.List.{append_assoc, append-nil}
use beyond_os1k.SpinLock.{SpinLock, new}
use beyond_os1k.Virtio.Device.{Device, VirtioVirtq, VirtioBlkReq}
use beyond_os1k.Virtio.Driver.{Box, Blk}
use beyond_os1k.Virtio.Protocol.{View, Serves}
use beyond_os1k.Virtio.Serves.{IsIdle, read_write_disk_lem}
use beyond_os1k.Tar.Fs.{Fs, sector_io, load_sectors, store_sectors}

overlay-part :
    (xs : List ℕ) (lo n : ℕ) → lo + n ≤ length xs → overlay xs lo (take n (drop lo xs)) ≡ xs
overlay-part xs lo n h =
    let len : lo + length (take n (drop lo xs)) ≡ lo + n =
      omega (arith, length-take n (drop lo xs), length-drop lo xs) in
    ap (λ k. take lo xs ++ (take n (drop lo xs) ++ drop k xs)) len
    ∙ ap (λ t. take lo xs ++ (take n (drop lo xs) ++ t)) (sym (drop-drop (lo + n) lo n xs refl))
    ∙ ap (λ t. take lo xs ++ t) (sym (split_at n (drop lo xs)))
    ∙ sym (split_at lo xs)

take-add : (n m k : ℕ) (xs : List ℕ) → k ≡ n + m → take k xs ≡ take n xs ++ take m (drop n xs)
take-add zero m k xs e = ap (λ k. take k xs) (omega arith)
take-add (suc n) m zero xs e = absurd (omega arith)
take-add (suc n) m (suc k) [] e = sym (take-nil m)
take-add (suc n) m (suc k) (x ∷ xs) e = ap (λ t. x ∷ t) (take-add n m k xs (omega arith))

take-all : (n : ℕ) (xs : List ℕ) → n ≡ length xs → take n xs ≡ xs
take-all n xs e = ap (take n) (sym (append-nil xs)) ∙ take-append_eq n xs [] e

-- One more sector in place.
take-overlay :
    (xs ys : List ℕ) (lo n : ℕ)
    → length ys ≡ n
    → lo + n ≤ length xs
    → take (lo + n) (overlay xs lo ys) ≡ take lo xs ++ ys
take-overlay xs ys lo n e h =
    ap (take (lo + n)) (sym (append_assoc (take lo xs) ys (drop (lo + length ys) xs)))
    ∙ take-append_eq (lo + n) (take lo xs ++ ys) (drop (lo + length ys) xs)
        (omega (arith, length-append (take lo xs) ys, length-take lo xs))

-- The sectors below `n` are those of the image.
abbrev pub Holds : (ℕ → List ℕ) → List ℕ → ℕ → Type 0
Holds sectors image n = (i : ℕ) → i < n → sectors i ≡ part (i * 512) (i * 512 + 512) image

part-sector :
    (i : ℕ) (image : List ℕ)
    → part (i * 512) (i * 512 + 512) image ≡ take 512 (drop (i * 512) image)
part-sector i image =
    let e : i * 512 + 512 - i * 512 ≡ 512 = omega arith in ap (λ n. take n (drop (i * 512) image)) e

length-sector :
    (i : ℕ) (image : List ℕ)
    → i < 5
    → length image ≡ 2560
    → length (part (i * 512) (i * 512 + 512) image) ≡ 512
length-sector i image h full = omega (
  arith,
  length-take (i * 512 + 512 - i * 512) (drop (i * 512) image),
  length-drop (i * 512) image,
)

-- Between requests, whatever the contents of the queue and the request.
pub record IsReady {S : Type 0} (view : View S) (bytes : ℕ) (b : Blk S) : Type 0 where
  pub vq : Box VirtioVirtq
  pub req : Box VirtioBlkReq
  pub idle : IsIdle view b vq req bytes

module _ {S : Type 0} (dev : Device S) (bound : ℕ) (view : View S) (serves : Serves dev bound view)
    (fuel : ℕ) (enough : bound ≤ fuel) (bytes : ℕ) (room : 5 ≤ bytes / 512) where
  sector_io-read :
      (xs image : List ℕ) (i : ℕ) (b : Blk S)
      → IsReady view bytes b
      → i < 5
      → length xs ≡ 2560
      → length image ≡ 2560
      → Holds (view.disk b.dev) image 5
      → (b' : Blk S) × (sector_io dev fuel xs i false b
          ≡ ok (overlay xs (i * 512) (part (i * 512) (i * 512 + 512) image), b'))
        × IsReady view bytes b'
        × ((j : ℕ) → view.disk b'.dev j ≡ view.disk b.dev j)
  unfolding sector_io
  sector_io-read xs image i b ready h full image_full holds =
      let lo = i * 512 in
      let buf = part lo (lo + 512) xs in
      let (b', vq', req', e, idle', same) =
        read_write_disk_lem dev bound view serves fuel enough b ready.vq ready.req bytes buf i false
          ready.idle (length-sector i xs h full) (omega arith) in
      (
        b',
        rw (slice-ok xs lo (lo + 512) (omega arith) (omega arith), e, holds i h)
            (rw
              (copy_into-ok xs lo (lo + 512) (part lo (lo + 512) image)
                (omega (arith, length-sector i image h image_full)) (omega arith))
              refl),
        record { vq = vq'; req = req'; idle = idle' },
        same,
      )

  sector_io-write :
      (image : List ℕ) (i : ℕ) (b : Blk S)
      → IsReady view bytes b
      → i < 5
      → length image ≡ 2560
      → (b' : Blk S) × (sector_io dev fuel image i true b ≡ ok (image, b'))
        × IsReady view bytes b'
        × ((j : ℕ)
            → view.disk b'.dev j
              ≡ (if j == i then part (i * 512) (i * 512 + 512) image else view.disk b.dev j))
  unfolding sector_io
  sector_io-write image i b ready h full =
      let lo = i * 512 in
      let buf = part lo (lo + 512) image in
      let (b', vq', req', e, idle', changed) =
        read_write_disk_lem dev bound view serves fuel enough b ready.vq ready.req bytes buf i true
          ready.idle (length-sector i image h full) (omega arith) in
      let same : overlay image lo buf ≡ image =
        ap (overlay image lo) (part-sector i image) ∙ overlay-part image lo 512 (omega arith) in
      (
        b',
        rw (slice-ok image lo (lo + 512) (omega arith) (omega arith), e)
            (rw
              (
                copy_into-ok image lo (lo + 512) buf (omega (arith, length-sector i image h full))
                    (omega arith),
                same,
              )
              refl),
        record { vq = vq'; req = req'; idle = idle' },
        changed,
      )

  -- The writes leave the image on the device, sector after sector.
  pub store_sectors_lem :
      (image : List ℕ)
      → length image ≡ 2560
      → (left i : ℕ) (b : Blk S) → i + left ≡ 5
      → IsReady view bytes b
      → Holds (view.disk b.dev) image i
      → (b' : Blk S) × (store_sectors dev fuel left i image b ≡ ok (image, b'))
        × IsReady view bytes b'
        × Holds (view.disk b'.dev) image 5
  unfolding store_sectors
  store_sectors_lem image full zero i b e ready holds =
      (b, refl, ready, λ j h. holds j (omega arith))
  store_sectors_lem image full (suc left) i b e ready holds =
      let (b', wrote, ready', changed) = sector_io-write image i b ready (omega arith) full in
      let holds' : Holds (view.disk b'.dev) image (i + 1) = λ j h. changed j ∙ now j h (holds j) in
      let (b'', ran, ready'', holds'') =
        store_sectors_lem image full left (i + 1) b' (omega arith) ready' holds' in
      (b'', rw wrote ran, ready'', holds'')
    where
      now :
          (j : ℕ)
          → j < i + 1
          → (j < i → view.disk b.dev j ≡ part (j * 512) (j * 512 + 512) image)
          → (if j == i then part (i * 512) (i * 512 + 512) image else view.disk b.dev j)
            ≡ part (j * 512) (j * 512 + 512) image
      now j h before = elim (Bool-cases (j == i)) [
        | inl here ↦ rw here (ap (λ k. part (k * 512) (k * 512 + 512) image) (sym (==→eq j i here)))
        | inr other ↦ let ne : j ≢ i = ==→ne j i other in rw other (before (omega arith))
      ]

  -- The reads fetch the image from the device, sector after sector.
  pub load_sectors_lem :
      (image : List ℕ)
      → length image ≡ 2560
      → (left i : ℕ) (fs : Fs S) (xs : List ℕ) → i + left ≡ 5
      → fs.disk ≡ new xs
      → length xs ≡ 2560
      → take (i * 512) xs ≡ take (i * 512) image
      → IsReady view bytes fs.blk
      → Holds (view.disk fs.blk.dev) image 5
      → (b' : Blk S) × (load_sectors dev fuel left i fs
          ≡ ok (record fs { disk = new image; blk = b' }))
        × IsReady view bytes b'
        × Holds (view.disk b'.dev) image 5
  unfolding load_sectors
  load_sectors_lem image full zero i fs xs e at len same ready holds =
      let whole : xs ≡ image =
        sym (take-all (i * 512) xs (omega arith)) ∙ same ∙ take-all (i * 512) image (omega arith) in
      (
        fs.blk,
        ap (λ (l : SpinLock (List ℕ)). ok (record fs { disk = l })) (at ∙ ap (λ ys. new ys) whole),
        ready,
        holds,
      )
  load_sectors_lem image full (suc left) i fs xs e at len same ready holds =
      let (b', read, ready', kept) =
        sector_io-read xs image i fs.blk ready (omega arith) len full holds in
      let sector = part (i * 512) (i * 512 + 512) image in
      let xs' = overlay xs (i * 512) sector in
      let size = length-sector i image (omega arith) full in
      let len' : length xs' ≡ 2560 = length-overlay xs (i * 512) sector (omega arith) ∙ len in
      let next : (i + 1) * 512 ≡ i * 512 + 512 = omega arith in
      let same' : take ((i + 1) * 512) xs' ≡ take ((i + 1) * 512) image =
        ap (λ n. take n xs') next
        ∙ take-overlay xs sector (i * 512) 512 size (omega arith)
        ∙ ap (λ t. t ++ sector) same
        ∙ ap (λ t. take (i * 512) image ++ t) (part-sector i image)
        ∙ sym (take-add (i * 512) 512 ((i + 1) * 512) image next) in
      let (b'', ran, ready'', holds'') =
        load_sectors_lem image full left (i + 1) (record fs { disk = new xs'; blk = b' }) xs'
          (omega arith) refl len' same' ready' (λ j h. kept j ∙ holds j h) in
      (b'', rw (at, read) ran, ready'', holds'')
